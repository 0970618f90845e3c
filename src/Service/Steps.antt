-- ===== src/Service/Steps.antt =====
-- The operations of internal/service/payment_service.go, and the invariants that their statements keep.
use mkwanja_payment_service.Prelude.{⊤, String, ◌∷◌, Option, none, some}
use mkwanja_payment_service.Prelude.Result.{Result, ok, err}
use mkwanja_payment_service.Paystack.Messages.{InitializeTransactionData}
use mkwanja_payment_service.Daraja.Messages.{Sent, StkPushResponse, B2cResponse, B2bResponse}
use mkwanja_payment_service.Db.Models.{
  Payment, PaymentDirection, inbound, outbound, ClientCredential,
}
use mkwanja_payment_service.Db.World.{World, Env}
use mkwanja_payment_service.Db.Action.{Action, pure, statement, wrapped}
use mkwanja_payment_service.Db.Keeps.{
  Keeps, Keeps-statement, Keeps-pure, Keeps-if, Keeps-bind, keeps_rules,
}
use mkwanja_payment_service.Repository.PaymentRepo
use mkwanja_payment_service.Repository.ClientRepo
use mkwanja_payment_service.Service.Preserved.{
  IsPreserved, create_payment-Keeps, complete_payment-Keeps, fail_payment-Keeps,
  update_provider_request_id-Keeps, get_active_credentials-Keeps,
  get_active_paystack_credentials-Keeps, call-Keeps,
}
use mkwanja_payment_service.Service.Requests.{
  InitiateStkPushRequest, InitiateB2cRequest, InitiateB2bRequest, PaymentService,
}
use mkwanja_payment_service.Service.Settle
use mkwanja_payment_service.Service.Settle.{write_entries}
use mkwanja_payment_service.Service.Initiate.Common.{
  failing, or_fail, daraja_client, security_credential, store_route,
}
use mkwanja_payment_service.Service.Initiate.StkPush.{stk_request, record_stk_push, send_stk_push}
use mkwanja_payment_service.Service.Initiate.B2c.{b2c_request, record_b2c, send_b2c}
use mkwanja_payment_service.Service.Initiate.B2b.{b2b_request, record_b2b, send_b2b}
use mkwanja_payment_service.Db.Payments.{CreatePaymentParams}
use mkwanja_payment_service.Service.Paystack.{PaystackService, InitiatePaystackChargeRequest}
use mkwanja_payment_service.Service.Paystack.Charge.{charge_request, record_charge, send_charge}
use mkwanja_payment_service.Service.Initiations.{Initiation, after, RowKeeps, after-Keeps}

module _ {P : World → Type 0} {Allowed : Sent → Type 0} (inv : IsPreserved P Allowed)
    (env : Env) where
  pub repo_fail_payment : (id : String) → Keeps P (PaymentRepo.fail_payment env id)
  unfolding PaymentRepo.fail_payment
  repo_fail_payment id = search (keeps_rules, fail_payment-Keeps inv env id)

  write_entries-Keeps : (p : Payment) (d : PaymentDirection) → Keeps P (write_entries env p d)
  unfolding write_entries
  write_entries-Keeps p inbound = inv.inbound env p
  write_entries-Keeps p outbound = inv.outbound env p

  pub complete-Keeps :
      (id receipt tx : String) → Keeps P (Settle.complete_payment env id receipt tx)
  unfolding Settle.complete_payment PaymentRepo.complete_payment PaymentRepo.create_payment_event
  complete-Keeps id receipt tx =
      search (keeps_rules, complete_payment-Keeps inv env, write_entries-Keeps, inv.event env)

  pub fail-Keeps : (id reason : String) → Keeps P (Settle.fail_payment env id reason)
  unfolding Settle.fail_payment PaymentRepo.create_payment_event
  fail-Keeps id reason = search (keeps_rules, repo_fail_payment, inv.event env)

  module _ {A : Type 0} (id context : String) where
    failing-Keeps : (r : Result A) → Keeps P (failing env id context r)
    unfolding failing
    failing-Keeps (ok a) = search keeps_rules
    failing-Keeps (err e) = search (keeps_rules, repo_fail_payment)

    or_fail-Keeps : (step : Action A) → Keeps P step → Keeps P (or_fail env id context step)
    unfolding or_fail
    or_fail-Keeps step k = search (keeps_rules, failing-Keeps)

  module _ (s : PaymentService) where
    daraja_client-Keeps : (id : String) (c : ClientCredential) → Keeps P (daraja_client env s id c)
    unfolding daraja_client
    daraja_client-Keeps id c = search (keeps_rules, or_fail-Keeps)

    security_credential-Keeps :
        (id : String) (o : Option String) → Keeps P (security_credential env s id o)
    unfolding security_credential
    security_credential-Keeps id none = search keeps_rules
    security_credential-Keeps id (some c) = search (keeps_rules, or_fail-Keeps)

    store_route-Keeps : (key value : String) → Keeps P (store_route env s key value)
    unfolding store_route
    store_route-Keeps key value =
        Keeps-if s.has_redis
          (statement env (λ w. (ok tt, record w { routes = (key, value) ∷ w.routes }))) (pure tt)
          (Keeps-statement env (λ w. (ok tt, record w { routes = (key, value) ∷ w.routes }))
            inv.timeless (record { at = λ w h. inv.route w key value h }))
          (Keeps-pure tt)

    record_stk_push-Keeps :
        (req : InitiateStkPushRequest) (p : Payment) (resp : StkPushResponse)
        → Keeps P (record_stk_push env s req p resp)
    unfolding record_stk_push PaymentRepo.update_provider_request_id
    record_stk_push-Keeps req p resp =
        search (keeps_rules, update_provider_request_id-Keeps inv env, store_route-Keeps)

    pub send_stk_push-Keeps :
        (req : InitiateStkPushRequest) (phone : String) (p : Payment)
        → ((creds : ClientCredential) → Allowed (Sent.stk (stk_request s req phone creds)))
        → Keeps P (send_stk_push env s req phone p)
    unfolding send_stk_push ClientRepo.get_active_credentials
    send_stk_push-Keeps req phone p allowed =
        search
          (
            keeps_rules,
            or_fail-Keeps,
            get_active_credentials-Keeps inv env,
            daraja_client-Keeps,
            call-Keeps inv env,
            allowed,
            record_stk_push-Keeps,
          )
          depth 7

    record_b2c-Keeps :
        (req : InitiateB2cRequest) (p : Payment) (resp : B2cResponse)
        → Keeps P (record_b2c env s req p resp)
    unfolding record_b2c PaymentRepo.update_provider_request_id
    record_b2c-Keeps req p resp = search (keeps_rules, update_provider_request_id-Keeps inv env)

    pub send_b2c-Keeps :
        (req : InitiateB2cRequest) (phone : String) (p : Payment)
        → ((creds : ClientCredential) (security : String)
            → Allowed (Sent.b2c (b2c_request s req phone creds security)))
        → Keeps P (send_b2c env s req phone p)
    unfolding send_b2c ClientRepo.get_active_credentials
    send_b2c-Keeps req phone p allowed =
        search
          (
            keeps_rules,
            or_fail-Keeps,
            get_active_credentials-Keeps inv env,
            daraja_client-Keeps,
            security_credential-Keeps,
            call-Keeps inv env,
            allowed,
            record_b2c-Keeps,
          )
          depth 7

    record_b2b-Keeps :
        (req : InitiateB2bRequest) (p : Payment) (resp : B2bResponse)
        → Keeps P (record_b2b env s req p resp)
    unfolding record_b2b PaymentRepo.update_provider_request_id
    record_b2b-Keeps req p resp = search (keeps_rules, update_provider_request_id-Keeps inv env)

    pub send_b2b-Keeps :
        (req : InitiateB2bRequest) (p : Payment)
        → ((creds : ClientCredential) (security : String)
            → Allowed (Sent.b2b (b2b_request s req creds security)))
        → Keeps P (send_b2b env s req p)
    unfolding send_b2b ClientRepo.get_active_credentials
    send_b2b-Keeps req p allowed =
        search
          (
            keeps_rules,
            or_fail-Keeps,
            get_active_credentials-Keeps inv env,
            daraja_client-Keeps,
            security_credential-Keeps,
            call-Keeps inv env,
            allowed,
            record_b2b-Keeps,
          )
          depth 7

  module _ (s : PaystackService) where
    record_charge-Keeps :
        (req : InitiatePaystackChargeRequest) (p : Payment) (answer : InitializeTransactionData)
        → Keeps P (record_charge env s req p answer)
    unfolding record_charge PaymentRepo.update_provider_request_id
    record_charge-Keeps req p answer =
        search (keeps_rules, update_provider_request_id-Keeps inv env)

    pub send_charge-Keeps :
        (req : InitiatePaystackChargeRequest) (p : Payment)
        → Allowed (Sent.paystack (charge_request req p.id))
        → Keeps P (send_charge env s req p)
    unfolding send_charge ClientRepo.get_active_paystack_credentials
    send_charge-Keeps req p allowed =
        search
          (
            keeps_rules,
            or_fail-Keeps,
            get_active_paystack_credentials-Keeps inv env,
            call-Keeps inv env,
            allowed,
            record_charge-Keeps,
          )
          depth 7

  pub repo_create_payment-Keeps :
      (p : CreatePaymentParams)
      → Keeps P (wrapped "create payment" (PaymentRepo.create_payment env p))
  unfolding PaymentRepo.create_payment
  repo_create_payment-Keeps p = search (keeps_rules, create_payment-Keeps inv env)

-- An invariant that allows every request is kept by every initiation.
pub IsPreserved-after :
    {P : World → Type 0}
    → IsPreserved P (λ r. ⊤)
    → (env : Env) (s : PaymentService) (a : Initiation) (w : World) → P w
    → P (after env s a w)
IsPreserved-after {P} inv env s a = after-Keeps env s a inv.timeless (rows a)
  where
    rows : (a : Initiation) → RowKeeps P env s a
    rows (Initiation.stk req) = λ valid phone normal.
        Keeps-bind _ _ (repo_create_payment-Keeps inv env _)
          (λ p. send_stk_push-Keeps inv env s req phone p (λ creds. tt))
    rows (Initiation.b2c req) = λ valid phone normal.
        Keeps-bind _ _ (repo_create_payment-Keeps inv env _)
          (λ p. send_b2c-Keeps inv env s req phone p (λ creds security. tt))
    rows (Initiation.b2b req) = λ valid.
        Keeps-bind _ _ (repo_create_payment-Keeps inv env _)
          (λ p. send_b2b-Keeps inv env s req p (λ creds security. tt))
    rows (Initiation.charge service req) = λ valid.
        Keeps-bind _ _ (repo_create_payment-Keeps inv env _)
          (λ p. send_charge-Keeps inv env service req p tt)
