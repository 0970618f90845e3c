-- ===== src/Service/Initiate/Failed/Kinds.antt =====
-- What the request of an initiation leaves of the row of its payment, for each kind of payment
-- (internal/service/payment_service.go and internal/service/paystack_service.go).
use mkwanja_payment_service.Prelude.{
  ⊤, ℕ, String, ◌≡◌, false, List, Option, none, some, any, is_empty, Bool-cases, inl, inr,
}
use mkwanja_payment_service.Daraja.Messages.{StkPushResponse, B2cResponse, B2bResponse}
use mkwanja_payment_service.Paystack.Messages.{InitializeTransactionData}
use mkwanja_payment_service.Db.Models.{Payment, ClientCredential}
use mkwanja_payment_service.Db.World.{World, Env}
use mkwanja_payment_service.Db.Action.{Action, pure, attempt, ◌>>=◌}
use mkwanja_payment_service.Db.Keeps.{Keeps, Keeps-lift, Keeps-wrapped}
use mkwanja_payment_service.Db.Payments.{has_id}
use mkwanja_payment_service.Db.Clients
use mkwanja_payment_service.Repository.ClientRepo
use mkwanja_payment_service.Service.Requests.{
  PaymentService, InitiateStkPushRequest, InitiateB2cRequest, InitiateB2bRequest,
}
use mkwanja_payment_service.Service.Paystack.{PaystackService, InitiatePaystackChargeRequest}
use mkwanja_payment_service.Service.Initiate.Common.{daraja_client, security_credential, or_fail}
use mkwanja_payment_service.Service.Initiate.StkPush.{send_stk_push, record_stk_push}
use mkwanja_payment_service.Service.Initiate.B2c.{send_b2c, record_b2c}
use mkwanja_payment_service.Service.Initiate.B2b.{send_b2b, record_b2b}
use mkwanja_payment_service.Service.Paystack.Charge.{send_charge, record_charge}
use mkwanja_payment_service.Service.Initiate.Failed.{
  Ends, HasRow, HasFailed, Ends-then, Ends-pure, or_fail-Ends, call-HasRow, query-HasRow,
}

module _ (env : Env) (calm : (n : ℕ) → env.fails n ≡ false) (row : Payment) (old : List Payment)
    (fresh : any (has_id row.id) old ≡ false) where
  abbrev Row : World → Type 0
  Row = HasRow env calm row old fresh

  abbrev Failed : World → Type 0
  Failed = HasFailed env calm row old fresh

  -- The request returns, or the row is marked as failed.
  abbrev pub EndsWell : {A : Type 0} → Action A → Type 0
  EndsWell m = Ends Row (λ w. ⊤) Failed m

  then-Ends :
      {A B : Type 0} {Good : World → Type 0} (m : Action A) (f : A → Action B)
      → Ends Row Row Failed m
      → ((a : A) → Ends Row Good Failed (f a))
      → Ends Row Good Failed (m >>= f)
  then-Ends m f km kf = Ends-then env calm row old fresh m f km kf

  step-Ends :
      {A : Type 0} (context : String) (step : Action A)
      → Keeps Row step
      → Ends Row Row Failed (or_fail env row.id context step)
  step-Ends context step k = or_fail-Ends env calm row old fresh context step k

  creds-Keeps : (id : String) → Keeps Row (ClientRepo.get_active_credentials env id)
  unfolding ClientRepo.get_active_credentials Clients.get_active_credentials
  creds-Keeps id = Keeps-wrapped _ _ (query-HasRow env calm row old fresh _)

  keys-Keeps : (id : String) → Keeps Row (ClientRepo.get_active_paystack_credentials env id)
  unfolding ClientRepo.get_active_paystack_credentials Clients.get_active_paystack_credentials
  keys-Keeps id = Keeps-wrapped _ _ (query-HasRow env calm row old fresh _)

  module _ (s : PaymentService) where
    daraja_client-Ends : (c : ClientCredential) → Ends Row Row Failed (daraja_client env s row.id c)
    unfolding daraja_client
    daraja_client-Ends c = search (then-Ends, step-Ends, Ends-pure, Keeps-lift) depth 9

    security_credential-Ends :
        (o : Option String) → Ends Row Row Failed (security_credential env s row.id o)
    unfolding security_credential
    security_credential-Ends none = Ends-pure ""
    security_credential-Ends (some sealed) = elim (Bool-cases (is_empty sealed)) [
      | inl empty ↦ rw empty (Ends-pure "")
      | inr full ↦ rw full (search (step-Ends, Keeps-lift))
    ]

    record_stk_push-Ends :
        (req : InitiateStkPushRequest) (resp : StkPushResponse)
        → EndsWell (record_stk_push env s req row resp)
    unfolding record_stk_push ◌>>=◌ attempt pure
    record_stk_push-Ends req resp = record { at = λ w h. tt }

    pub send_stk_push-Ends :
        (req : InitiateStkPushRequest) (phone : String)
        → EndsWell (send_stk_push env s req phone row)
    unfolding send_stk_push
    send_stk_push-Ends req phone =
        search
          (
            then-Ends,
            step-Ends,
            creds-Keeps,
            daraja_client-Ends,
            call-HasRow env calm row old fresh,
            record_stk_push-Ends,
          )
          depth 9

    record_b2c-Ends :
        (req : InitiateB2cRequest) (resp : B2cResponse) → EndsWell (record_b2c env s req row resp)
    unfolding record_b2c ◌>>=◌ attempt pure
    record_b2c-Ends req resp = record { at = λ w h. tt }

    pub send_b2c-Ends :
        (req : InitiateB2cRequest) (phone : String) → EndsWell (send_b2c env s req phone row)
    unfolding send_b2c
    send_b2c-Ends req phone =
        search
          (
            then-Ends,
            step-Ends,
            creds-Keeps,
            daraja_client-Ends,
            security_credential-Ends,
            call-HasRow env calm row old fresh,
            record_b2c-Ends,
          )
          depth 9

    record_b2b-Ends :
        (req : InitiateB2bRequest) (resp : B2bResponse) → EndsWell (record_b2b env s req row resp)
    unfolding record_b2b ◌>>=◌ attempt pure
    record_b2b-Ends req resp = record { at = λ w h. tt }

    pub send_b2b-Ends : (req : InitiateB2bRequest) → EndsWell (send_b2b env s req row)
    unfolding send_b2b
    send_b2b-Ends req =
        search
          (
            then-Ends,
            step-Ends,
            creds-Keeps,
            daraja_client-Ends,
            security_credential-Ends,
            call-HasRow env calm row old fresh,
            record_b2b-Ends,
          )
          depth 9

  module _ (s : PaystackService) (req : InitiatePaystackChargeRequest) where
    record_charge-Ends :
        (answer : InitializeTransactionData) → EndsWell (record_charge env s req row answer)
    unfolding record_charge ◌>>=◌ attempt pure
    record_charge-Ends answer = record { at = λ w h. tt }

    pub send_charge-Ends : EndsWell (send_charge env s req row)
    unfolding send_charge
    send_charge-Ends =
        search
          (
            then-Ends,
            step-Ends,
            keys-Keeps,
            Keeps-lift,
            call-HasRow env calm row old fresh,
            record_charge-Ends,
          )
          depth 9
