-- ===== src/Service/Initiate/Shape.antt =====
-- The initiations of internal/service/payment_service.go and internal/service/paystack_service.go have one
-- shape: the checks, the lookup of the key, the row, the request. An invariant is kept by an initiation
-- when the lookup keeps it, and the row and the request together keep it after the checks.
use mkwanja_payment_service.Prelude.{String, ◌≡◌, arith}
use mkwanja_payment_service.Prelude.Result.{Result, ok, err, wrap_err}
use mkwanja_payment_service.Db.Models.{Payment}
use mkwanja_payment_service.Db.World.{World, Env}
use mkwanja_payment_service.Db.Action.{Action, attempt, wrapped, ◌>>=◌}
use mkwanja_payment_service.Db.Keeps.{
  Keeps, Keeps-check, Keeps-bind, Keeps-attempt, Keeps-pure, Keeps-wrapped, Keeps-query, IsTimeless,
}
use mkwanja_payment_service.Db.Payments
use mkwanja_payment_service.Db.Payments.{CreatePaymentParams}
use mkwanja_payment_service.Domain.Phone.{normalise_phone}
use mkwanja_payment_service.Repository.PaymentRepo
use mkwanja_payment_service.Service.Requests.{
  PaymentService, InitiateStkPushRequest, InitiateB2cRequest, InitiateB2bRequest, validate_stk_push,
  validate_b2c, validate_b2b,
}
use mkwanja_payment_service.Service.Initiate.StkPush.{
  stk_payment, stk_replay, send_stk_push, start_stk_push, initiate_stk_push,
}
use mkwanja_payment_service.Service.Initiate.B2c.{
  b2c_payment, b2c_replay, send_b2c, start_b2c, initiate_b2c,
}
use mkwanja_payment_service.Service.Initiate.B2b.{
  b2b_payment, b2b_replay, send_b2b, start_b2b, initiate_b2b,
}
use mkwanja_payment_service.Service.Paystack.{
  PaystackService, InitiatePaystackChargeRequest, validate_charge,
}
use mkwanja_payment_service.Service.Paystack.Charge.{
  charge_payment, charge_replay, send_charge, start_charge, initiate_charge,
}

-- A row, and the request that follows it.
abbrev pub row_then : {A : Type 0} → Env → CreatePaymentParams → (Payment → Action A) → Action A
row_then env p send = wrapped "create payment" (PaymentRepo.create_payment env p) >>= send

pub wrapped-ok :
    {A : Type 0} (context : String) (r : Result A) (a : A) → wrap_err context r ≡ ok a → r ≡ ok a
wrapped-ok context (ok b) a e = e
wrapped-ok context (err x) a e = ground (arith, e)

module _ {P : World → Type 0} (env : Env) (timeless : IsTimeless P) where
  lookup :
      (client_id key : String)
      → Keeps P (PaymentRepo.get_payment_by_idempotency_key env client_id key)
  unfolding PaymentRepo.get_payment_by_idempotency_key Payments.get_payment_by_idempotency_key
  lookup client_id key = Keeps-wrapped _ _ (Keeps-query env _ timeless)

  module _ (s : PaymentService) (req : InitiateStkPushRequest) where
    start_stk_push-Keeps :
        (phone : String) (r : Result Payment)
        → Keeps P (row_then env (stk_payment req phone) (send_stk_push env s req phone))
        → Keeps P (start_stk_push env s req phone r)
    unfolding start_stk_push
    start_stk_push-Keeps phone (ok p) k = Keeps-pure (stk_replay p)
    start_stk_push-Keeps phone (err e) k = k

    look_up_stk_push-Keeps :
        (phone : String)
        → Keeps P (row_then env (stk_payment req phone) (send_stk_push env s req phone))
        → Keeps P (
            attempt
              (PaymentRepo.get_payment_by_idempotency_key env req.client_id req.idempotency_key)
            >>= start_stk_push env s req phone)
    look_up_stk_push-Keeps phone k =
        Keeps-bind
          (attempt
            (PaymentRepo.get_payment_by_idempotency_key env req.client_id req.idempotency_key))
          (start_stk_push env s req phone)
          (Keeps-attempt
            (PaymentRepo.get_payment_by_idempotency_key env req.client_id req.idempotency_key)
            (lookup req.client_id req.idempotency_key))
          (λ r. start_stk_push-Keeps phone r k)

    pub initiate_stk_push-Keeps :
        (validate_stk_push req ≡ ok tt
          → (phone : String) → normalise_phone req.phone_number ≡ ok phone
          → Keeps P (row_then env (stk_payment req phone) (send_stk_push env s req phone)))
        → Keeps P (initiate_stk_push env s req)
    unfolding initiate_stk_push
    initiate_stk_push-Keeps row =
        Keeps-check (wrap_err "validation" (validate_stk_push req)) _ (λ u valid.
          Keeps-check (wrap_err "phone validation" (normalise_phone req.phone_number)) _
            (λ phone normal. look_up_stk_push-Keeps phone (
              row (wrapped-ok _ (validate_stk_push req) u valid) phone
                (wrapped-ok _ (normalise_phone req.phone_number) phone normal))))

  module _ (s : PaymentService) (req : InitiateB2cRequest) where
    start_b2c-Keeps :
        (phone : String) (r : Result Payment)
        → Keeps P (row_then env (b2c_payment req phone) (send_b2c env s req phone))
        → Keeps P (start_b2c env s req phone r)
    unfolding start_b2c
    start_b2c-Keeps phone (ok p) k = Keeps-pure (b2c_replay p)
    start_b2c-Keeps phone (err e) k = k

    look_up_b2c-Keeps :
        (phone : String)
        → Keeps P (row_then env (b2c_payment req phone) (send_b2c env s req phone))
        → Keeps P (
            attempt
              (PaymentRepo.get_payment_by_idempotency_key env req.client_id req.idempotency_key)
            >>= start_b2c env s req phone)
    look_up_b2c-Keeps phone k =
        Keeps-bind
          (attempt
            (PaymentRepo.get_payment_by_idempotency_key env req.client_id req.idempotency_key))
          (start_b2c env s req phone)
          (Keeps-attempt
            (PaymentRepo.get_payment_by_idempotency_key env req.client_id req.idempotency_key)
            (lookup req.client_id req.idempotency_key))
          (λ r. start_b2c-Keeps phone r k)

    pub initiate_b2c-Keeps :
        (validate_b2c req ≡ ok tt
          → (phone : String) → normalise_phone req.phone_number ≡ ok phone
          → Keeps P (row_then env (b2c_payment req phone) (send_b2c env s req phone)))
        → Keeps P (initiate_b2c env s req)
    unfolding initiate_b2c
    initiate_b2c-Keeps row = Keeps-check (wrap_err "validation" (validate_b2c req)) _ (λ u valid.
        Keeps-check (wrap_err "phone validation" (normalise_phone req.phone_number)) _
          (λ phone normal. look_up_b2c-Keeps phone (
            row (wrapped-ok _ (validate_b2c req) u valid) phone
              (wrapped-ok _ (normalise_phone req.phone_number) phone normal))))

  module _ (s : PaymentService) (req : InitiateB2bRequest) where
    start_b2b-Keeps :
        (r : Result Payment)
        → Keeps P (row_then env (b2b_payment req) (send_b2b env s req))
        → Keeps P (start_b2b env s req r)
    unfolding start_b2b
    start_b2b-Keeps (ok p) k = Keeps-pure (b2b_replay p)
    start_b2b-Keeps (err e) k = k

    look_up_b2b-Keeps :
        Keeps P (row_then env (b2b_payment req) (send_b2b env s req))
        → Keeps P (
            attempt
              (PaymentRepo.get_payment_by_idempotency_key env req.client_id req.idempotency_key)
            >>= start_b2b env s req)
    look_up_b2b-Keeps k =
        Keeps-bind
          (attempt
            (PaymentRepo.get_payment_by_idempotency_key env req.client_id req.idempotency_key))
          (start_b2b env s req)
          (Keeps-attempt
            (PaymentRepo.get_payment_by_idempotency_key env req.client_id req.idempotency_key)
            (lookup req.client_id req.idempotency_key))
          (λ r. start_b2b-Keeps r k)

    pub initiate_b2b-Keeps :
        (validate_b2b req ≡ ok tt → Keeps P (row_then env (b2b_payment req) (send_b2b env s req)))
        → Keeps P (initiate_b2b env s req)
    unfolding initiate_b2b
    initiate_b2b-Keeps row =
        Keeps-check (wrap_err "validation" (validate_b2b req)) _
          (λ u valid. look_up_b2b-Keeps (row (wrapped-ok _ (validate_b2b req) u valid)))

  module _ (s : PaystackService) (req : InitiatePaystackChargeRequest) where
    start_charge-Keeps :
        (r : Result Payment)
        → Keeps P (row_then env (charge_payment req) (send_charge env s req))
        → Keeps P (start_charge env s req r)
    unfolding start_charge
    start_charge-Keeps (ok p) k = Keeps-pure (charge_replay p)
    start_charge-Keeps (err e) k = k

    look_up_charge-Keeps :
        Keeps P (row_then env (charge_payment req) (send_charge env s req))
        → Keeps P (
            attempt
              (PaymentRepo.get_payment_by_idempotency_key env req.client_id req.idempotency_key)
            >>= start_charge env s req)
    look_up_charge-Keeps k =
        Keeps-bind
          (attempt
            (PaymentRepo.get_payment_by_idempotency_key env req.client_id req.idempotency_key))
          (start_charge env s req)
          (Keeps-attempt
            (PaymentRepo.get_payment_by_idempotency_key env req.client_id req.idempotency_key)
            (lookup req.client_id req.idempotency_key))
          (λ r. start_charge-Keeps r k)

    pub initiate_charge-Keeps :
        (validate_charge req ≡ ok tt
          → Keeps P (row_then env (charge_payment req) (send_charge env s req)))
        → Keeps P (initiate_charge env s req)
    unfolding initiate_charge
    initiate_charge-Keeps row =
        Keeps-check (wrap_err "validation" (validate_charge req)) _
          (λ u valid. look_up_charge-Keeps (row (wrapped-ok _ (validate_charge req) u valid)))
