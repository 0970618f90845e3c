-- ===== src/Service/Initiations/Made/Each.antt =====
-- The four initiations, when they return no error (internal/service/payment_service.go and
-- internal/service/paystack_service.go).
use mkwanja_payment_service.Prelude.{String, ◌≡◌, refl, true, ◌⊎◌}
use mkwanja_payment_service.Prelude.Result.{Result, ok, err}
use mkwanja_payment_service.Db.Models.{Payment}
use mkwanja_payment_service.Db.World.{World, Env}
use mkwanja_payment_service.Db.Payments.{new_payment}
use mkwanja_payment_service.Domain.Phone.{normalise_phone}
use mkwanja_payment_service.Service.Requests.{
  PaymentService, InitiateStkPushRequest, InitiateB2cRequest, InitiateB2bRequest,
  InitiateStkPushResult, InitiateB2cResult, InitiateB2bResult, validate_stk_push, validate_b2c,
  validate_b2b,
}
use mkwanja_payment_service.Service.Paystack.{
  PaystackService, InitiatePaystackChargeRequest, InitiatePaystackChargeResult, validate_charge,
}
use mkwanja_payment_service.Service.Initiate.StkPush.{
  stk_payment, stk_replay, start_stk_push, send_stk_push, initiate_stk_push,
}
use mkwanja_payment_service.Service.Initiate.B2c.{
  b2c_payment, b2c_replay, start_b2c, send_b2c, initiate_b2c,
}
use mkwanja_payment_service.Service.Initiate.B2b.{
  b2b_payment, b2b_replay, start_b2b, send_b2b, initiate_b2b,
}
use mkwanja_payment_service.Service.Paystack.Charge.{
  charge_payment, charge_replay, start_charge, send_charge, initiate_charge,
}
use mkwanja_payment_service.Service.Initiate.Asks.{stk-Asks, b2c-Asks, b2b-Asks, charge-Asks}
use mkwanja_payment_service.Service.Initiate.Made.{Gives}
use mkwanja_payment_service.Service.Initiate.Made.Kinds.{
  send_stk_push-Done, send_b2c-Done, send_b2b-Done, send_charge-Done,
}
use mkwanja_payment_service.Service.Initiations.Made.Rows.{
  IsNew, Same, Result-Made, row_then-made, lift-gives, lookup-gives, replay-gives,
}

module _ (w0 : World) where
  module _ (env : Env) (s : PaymentService) (req : InitiateStkPushRequest) where
    start_stk_push-gives :
        (phone : String) (r : Result Payment)
        → validate_stk_push req ≡ ok tt
        → Gives
            (Same w0)
            (Result-Made w0 {A = InitiateStkPushResult}
              (λ r. r.payment_id)
              (λ r. r.idempotency_replayed)
              (stk_payment req phone))
            (start_stk_push env s req phone r)
    unfolding start_stk_push
    start_stk_push-gives phone (ok p) valid =
        replay-gives w0 _ _ (stk_payment req phone) (stk_replay p) refl
    start_stk_push-gives phone (err e) valid =
        row_then-made w0 (λ r. r.payment_id) (λ r. r.idempotency_replayed) env
          (stk_payment req phone) (send_stk_push env s req phone)
          (λ u fresh.
            send_stk_push-Done env (new_payment env (stk_payment req phone) u) w0.payments w0.sent
              fresh s req phone (stk-Asks s req phone valid))

    pub initiate_stk_push-gives :
        (w : World) (a : InitiateStkPushResult)
        → Same w0 w
        → (initiate_stk_push env s req w).0 ≡ ok a
        → (a.idempotency_replayed ≡ true)
          ⊎ IsNew a.payment_id req.client_id req.idempotency_key req.amount_cents w0
              (initiate_stk_push env s req w).1
    unfolding initiate_stk_push
    initiate_stk_push-gives w a =
        (lift-gives w0 "validation" (validate_stk_push req) _ (λ u valid.
            lift-gives w0 "phone validation" (normalise_phone req.phone_number) _ (λ phone normal.
              lookup-gives w0 env req.client_id req.idempotency_key (start_stk_push env s req phone)
                (λ r. start_stk_push-gives phone r valid)))).at
          w a

  module _ (env : Env) (s : PaymentService) (req : InitiateB2cRequest) where
    start_b2c-gives :
        (phone : String) (r : Result Payment)
        → validate_b2c req ≡ ok tt
        → Gives
            (Same w0)
            (Result-Made w0 {A = InitiateB2cResult}
              (λ r. r.payment_id)
              (λ r. r.idempotency_replayed)
              (b2c_payment req phone))
            (start_b2c env s req phone r)
    unfolding start_b2c
    start_b2c-gives phone (ok p) valid =
        replay-gives w0 _ _ (b2c_payment req phone) (b2c_replay p) refl
    start_b2c-gives phone (err e) valid =
        row_then-made w0 (λ r. r.payment_id) (λ r. r.idempotency_replayed) env
          (b2c_payment req phone) (send_b2c env s req phone)
          (λ u fresh.
            send_b2c-Done env (new_payment env (b2c_payment req phone) u) w0.payments w0.sent fresh
              s req phone (b2c-Asks s req phone valid))

    pub initiate_b2c-gives :
        (w : World) (a : InitiateB2cResult)
        → Same w0 w
        → (initiate_b2c env s req w).0 ≡ ok a
        → (a.idempotency_replayed ≡ true)
          ⊎ IsNew a.payment_id req.client_id req.idempotency_key req.amount_cents w0
              (initiate_b2c env s req w).1
    unfolding initiate_b2c
    initiate_b2c-gives w a =
        (lift-gives w0 "validation" (validate_b2c req) _ (λ u valid.
            lift-gives w0 "phone validation" (normalise_phone req.phone_number) _ (λ phone normal.
              lookup-gives w0 env req.client_id req.idempotency_key (start_b2c env s req phone)
                (λ r. start_b2c-gives phone r valid)))).at
          w a

  module _ (env : Env) (s : PaymentService) (req : InitiateB2bRequest) where
    start_b2b-gives :
        (r : Result Payment)
        → validate_b2b req ≡ ok tt
        → Gives
            (Same w0)
            (Result-Made w0 {A = InitiateB2bResult}
              (λ r. r.payment_id)
              (λ r. r.idempotency_replayed)
              (b2b_payment req))
            (start_b2b env s req r)
    unfolding start_b2b
    start_b2b-gives (ok p) valid = replay-gives w0 _ _ (b2b_payment req) (b2b_replay p) refl
    start_b2b-gives (err e) valid =
        row_then-made w0 (λ r. r.payment_id) (λ r. r.idempotency_replayed) env (b2b_payment req)
          (send_b2b env s req)
          (λ u fresh.
            send_b2b-Done env (new_payment env (b2b_payment req) u) w0.payments w0.sent fresh s req
              (b2b-Asks s req valid))

    pub initiate_b2b-gives :
        (w : World) (a : InitiateB2bResult)
        → Same w0 w
        → (initiate_b2b env s req w).0 ≡ ok a
        → (a.idempotency_replayed ≡ true)
          ⊎ IsNew a.payment_id req.client_id req.idempotency_key req.amount_cents w0
              (initiate_b2b env s req w).1
    unfolding initiate_b2b
    initiate_b2b-gives w a =
        (lift-gives w0 "validation" (validate_b2b req) _ (λ u valid.
            lookup-gives w0 env req.client_id req.idempotency_key (start_b2b env s req)
              (λ r. start_b2b-gives r valid))).at
          w a

  module _ (env : Env) (s : PaystackService) (req : InitiatePaystackChargeRequest) where
    start_charge-gives :
        (r : Result Payment)
        → validate_charge req ≡ ok tt
        → Gives
            (Same w0)
            (Result-Made w0 {A = InitiatePaystackChargeResult}
              (λ r. r.payment_id)
              (λ r. r.idempotency_replayed)
              (charge_payment req))
            (start_charge env s req r)
    unfolding start_charge
    start_charge-gives (ok p) valid =
        replay-gives w0 _ _ (charge_payment req) (charge_replay p) refl
    start_charge-gives (err e) valid =
        row_then-made w0 (λ r. r.payment_id) (λ r. r.idempotency_replayed) env (charge_payment req)
          (send_charge env s req)
          (λ u fresh.
            send_charge-Done env (new_payment env (charge_payment req) u) w0.payments w0.sent fresh
              s req (charge-Asks req (new_payment env (charge_payment req) u).id))

    pub initiate_charge-gives :
        (w : World) (a : InitiatePaystackChargeResult)
        → Same w0 w
        → (initiate_charge env s req w).0 ≡ ok a
        → (a.idempotency_replayed ≡ true)
          ⊎ IsNew a.payment_id req.client_id req.idempotency_key req.amount_cents w0
              (initiate_charge env s req w).1
    unfolding initiate_charge
    initiate_charge-gives w a =
        (lift-gives w0 "validation" (validate_charge req) _ (λ u valid.
            lookup-gives w0 env req.client_id req.idempotency_key (start_charge env s req)
              (λ r. start_charge-gives r valid))).at
          w a
