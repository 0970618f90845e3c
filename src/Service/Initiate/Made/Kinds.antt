-- ===== src/Service/Initiate/Made/Kinds.antt =====
-- What the request of an initiation that returns no error leaves, for each kind of payment
-- (internal/service/payment_service.go and internal/service/paystack_service.go).
use mkwanja_payment_service.Prelude.{
  ℕ, String, ◌≡◌, true, false, List, ◌∷◌, Option, none, some, any, is_empty, Bool-cases, inl, inr,
  arith,
}
use mkwanja_payment_service.Prelude.Result.{Result, ok}
use mkwanja_payment_service.Daraja.Messages.{Sent, StkPushResponse, B2cResponse, B2bResponse}
use mkwanja_payment_service.Paystack.Messages.{InitializeTransactionData}
use mkwanja_payment_service.Db.Models.{Payment, ClientCredential, null_string}
use mkwanja_payment_service.Db.World.{World, Env}
use mkwanja_payment_service.Db.Action.{Action, pure, attempt, statement, ◌>>=◌}
use mkwanja_payment_service.Db.Keeps.{
  Keeps, Keeps-lift, Keeps-pure, Keeps-wrapped, Keeps-if, Keeps-statement, IsTimeless,
}
use mkwanja_payment_service.Db.Payments.{has_id}
use mkwanja_payment_service.Db.Clients
use mkwanja_payment_service.Repository.ClientRepo
use mkwanja_payment_service.Service.Preserved.Backs.{is_row_of}
use mkwanja_payment_service.Service.Requests.{
  PaymentService, InitiateStkPushRequest, InitiateB2cRequest, InitiateB2bRequest,
  InitiateStkPushResult, InitiateB2cResult, InitiateB2bResult,
}
use mkwanja_payment_service.Service.Paystack.{
  PaystackService, InitiatePaystackChargeRequest, InitiatePaystackChargeResult,
}
use mkwanja_payment_service.Service.Initiate.Common.{
  daraja_client, security_credential, or_fail, call, store_route,
}
use mkwanja_payment_service.Service.Initiate.StkPush.{stk_request, send_stk_push, record_stk_push}
use mkwanja_payment_service.Service.Initiate.B2c.{b2c_request, send_b2c, record_b2c}
use mkwanja_payment_service.Service.Initiate.B2b.{b2b_request, send_b2b, record_b2b}
use mkwanja_payment_service.Service.Paystack.Charge.{charge_request, send_charge, record_charge}
use mkwanja_payment_service.Service.Initiate.Made.{
  Gives, Gives-bind, Gives-Keeps, Gives-or_fail, IsMade, IsAsked, IsDone, call-IsAsked,
  query-IsMade, update-IsDone,
}

module _ (env : Env) (row : Payment) (old : List Payment) (sent : List Sent)
    (fresh : any (has_id row.id) old ≡ false) where
  abbrev Made : World → Type 0
  Made = IsMade row old sent fresh

  abbrev Asked : World → Type 0
  Asked = IsAsked row old sent fresh

  abbrev Done : World → Type 0
  Done = IsDone row old sent fresh

  -- A step before the request, and the request.
  before :
      {A B : Type 0} {Q : B → World → Type 0} (m : Action A) (f : A → Action B)
      → Gives Made (λ a w. Made w) m
      → ((a : A) → Gives Made Q (f a))
      → Gives Made Q (m >>= f)
  before m f km kf = Gives-bind m f km kf

  asking :
      {A B : Type 0} {Q : B → World → Type 0} (m : Action A) (f : A → Action B)
      → Gives Made (λ a w. Asked w) m
      → ((a : A) → Gives Asked Q (f a))
      → Gives Made Q (m >>= f)
  asking m f km kf = Gives-bind m f km kf

  step :
      {A : Type 0} (context : String) (m : Action A)
      → Keeps Made m
      → Gives Made (λ a w. Made w) (or_fail env row.id context m)
  step context m k = Gives-or_fail env row.id context m (Gives-Keeps m k)

  request :
      {A : Type 0} (context : String) (answer : ℕ → Result A) (r : Sent)
      → is_row_of r row ≡ true
      → Gives Made (λ a w. Asked w) (or_fail env row.id context (call answer r))
  request context answer r asks =
      Gives-or_fail env row.id context (call answer r)
        (call-IsAsked row old sent fresh answer r asks)

  creds-Made : (id : String) → Keeps Made (ClientRepo.get_active_credentials env id)
  unfolding ClientRepo.get_active_credentials Clients.get_active_credentials
  creds-Made id = Keeps-wrapped _ _ (query-IsMade row old sent fresh env _)

  keys-Made : (id : String) → Keeps Made (ClientRepo.get_active_paystack_credentials env id)
  unfolding ClientRepo.get_active_paystack_credentials Clients.get_active_paystack_credentials
  keys-Made id = Keeps-wrapped _ _ (query-IsMade row old sent fresh env _)

  pure-Made : {A : Type 0} (a : A) → Gives Made (λ b w. Made w) (pure a)
  pure-Made a = Gives-Keeps (pure a) (Keeps-pure a)

  module _ (s : PaymentService) where
    daraja_client-Made :
        (c : ClientCredential) → Gives Made (λ a w. Made w) (daraja_client env s row.id c)
    unfolding daraja_client
    daraja_client-Made c = search (before, step, pure-Made, Keeps-lift) depth 9

    security_credential-Made :
        (o : Option String) → Gives Made (λ a w. Made w) (security_credential env s row.id o)
    unfolding security_credential
    security_credential-Made none = pure-Made ""
    security_credential-Made (some sealed) = elim (Bool-cases (is_empty sealed)) [
      | inl empty ↦ rw empty (pure-Made "")
      | inr full ↦ rw full (search (step, Keeps-lift))
    ]

    store_route-Done : (key value : String) → Keeps Done (store_route env s key value)
    unfolding store_route
    store_route-Done key value =
        Keeps-if s.has_redis
          (statement env (λ w. (ok tt, record w { routes = (key, value) ∷ w.routes }))) (pure tt)
          (Keeps-statement env _ timeless kept_by_routes) (Keeps-pure tt)
      where
        timeless : IsTimeless Done
        timeless = record { at = λ w n h. h }

        kept_by_routes : Keeps Done (λ w. (ok tt, record w { routes = (key, value) ∷ w.routes }))
        kept_by_routes = record { at = λ w h. h }

    record_stk_push-Done :
        (req : InitiateStkPushRequest) (resp : StkPushResponse)
        → Gives Asked
            (λ (a : InitiateStkPushResult) w. (a.payment_id ≡ row.id) × Done w)
            (record_stk_push env s req row resp)
    unfolding record_stk_push ◌>>=◌ attempt pure
    record_stk_push-Done req resp = record {
      at = λ w a h e. (
        ground (arith, e),
        (store_route-Done _ _).at _
            (update-IsDone row old sent fresh env (null_string resp.checkout_request_id) none w h),
      );
    }

    pub send_stk_push-Done :
        (req : InitiateStkPushRequest) (phone : String)
        → ((creds : ClientCredential)
            → is_row_of (Sent.stk (stk_request s req phone creds)) row ≡ true)
        → Gives Made
            (λ (a : InitiateStkPushResult) w. (a.payment_id ≡ row.id) × Done w)
            (send_stk_push env s req phone row)
    unfolding send_stk_push
    send_stk_push-Done req phone asks =
        search
          (
            before, asking, step, request, creds-Made, daraja_client-Made, asks,
            record_stk_push-Done,
          )
          depth 9

    record_b2c-Done :
        (req : InitiateB2cRequest) (resp : B2cResponse)
        → Gives Asked
            (λ (a : InitiateB2cResult) w. (a.payment_id ≡ row.id) × Done w)
            (record_b2c env s req row resp)
    unfolding record_b2c ◌>>=◌ attempt pure
    record_b2c-Done req resp = record {
      at = λ w a h e. (
        ground (arith, e),
        update-IsDone row old sent fresh env (null_string resp.conversation_id) none w h,
      );
    }

    pub send_b2c-Done :
        (req : InitiateB2cRequest) (phone : String)
        → ((creds : ClientCredential) (security : String)
            → is_row_of (Sent.b2c (b2c_request s req phone creds security)) row ≡ true)
        → Gives Made
            (λ (a : InitiateB2cResult) w. (a.payment_id ≡ row.id) × Done w)
            (send_b2c env s req phone row)
    unfolding send_b2c
    send_b2c-Done req phone asks =
        search
          (
            before, asking, step, request, creds-Made, daraja_client-Made, security_credential-Made,
            asks, record_b2c-Done,
          )
          depth 9

    record_b2b-Done :
        (req : InitiateB2bRequest) (resp : B2bResponse)
        → Gives Asked
            (λ (a : InitiateB2bResult) w. (a.payment_id ≡ row.id) × Done w)
            (record_b2b env s req row resp)
    unfolding record_b2b ◌>>=◌ attempt pure
    record_b2b-Done req resp = record {
      at = λ w a h e. (
        ground (arith, e),
        update-IsDone row old sent fresh env (null_string resp.conversation_id) none w h,
      );
    }

    pub send_b2b-Done :
        (req : InitiateB2bRequest)
        → ((creds : ClientCredential) (security : String)
            → is_row_of (Sent.b2b (b2b_request s req creds security)) row ≡ true)
        → Gives Made
            (λ (a : InitiateB2bResult) w. (a.payment_id ≡ row.id) × Done w)
            (send_b2b env s req row)
    unfolding send_b2b
    send_b2b-Done req asks =
        search
          (
            before, asking, step, request, creds-Made, daraja_client-Made, security_credential-Made,
            asks, record_b2b-Done,
          )
          depth 9

  module _ (s : PaystackService) (req : InitiatePaystackChargeRequest) where
    record_charge-Done :
        (answer : InitializeTransactionData)
        → Gives Asked
            (λ (a : InitiatePaystackChargeResult) w. (a.payment_id ≡ row.id) × Done w)
            (record_charge env s req row answer)
    unfolding record_charge ◌>>=◌ attempt pure
    record_charge-Done answer = record {
      at = λ w a h e. (
        ground (arith, e),
        update-IsDone row old sent fresh env (null_string answer.reference) none w h,
      );
    }

    pub send_charge-Done :
        is_row_of (Sent.paystack (charge_request req row.id)) row ≡ true
        → Gives Made
            (λ (a : InitiatePaystackChargeResult) w. (a.payment_id ≡ row.id) × Done w)
            (send_charge env s req row)
    unfolding send_charge
    send_charge-Done asks =
        search (before, asking, step, request, keys-Made, Keeps-lift, asks, record_charge-Done)
          depth 9
