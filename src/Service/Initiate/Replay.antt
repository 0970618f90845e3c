-- ===== src/Service/Initiate/Replay.antt =====
-- An initiation whose idempotency key is in the table already (internal/service/payment_service.go).
use mkwanja_payment_service.Prelude.{
  ap, ◌∙◌, ◌+◌, String, ◌≡◌, Bool, true, false, some, find, any, arith,
}
use mkwanja_payment_service.Prelude.Result.{ok, succeeds}
use mkwanja_payment_service.Db.Models.{Payment}
use mkwanja_payment_service.Db.World.{World, Env}
use mkwanja_payment_service.Db.Keeps.{Keeps, IsTimeless, Keeps-wrapped}
use mkwanja_payment_service.Db.Action.{Action, query, ◌>>=◌, wrapped}
use mkwanja_payment_service.Db.Payments
use mkwanja_payment_service.Db.Payments.{CreatePaymentParams, has_key}
use mkwanja_payment_service.Repository.PaymentRepo
use mkwanja_payment_service.Service.Requests.{
  PaymentService, InitiateStkPushRequest, InitiateB2cRequest, InitiateB2bRequest, validate_stk_push,
  validate_b2c, validate_b2b,
}
use mkwanja_payment_service.Domain.Phone.{normalise_phone}
use mkwanja_payment_service.Service.Initiate.StkPush.{stk_replay, initiate_stk_push}
use mkwanja_payment_service.Service.Initiate.B2c.{b2c_replay, initiate_b2c}
use mkwanja_payment_service.Service.Initiate.B2b.{b2b_replay, initiate_b2b}
use mkwanja_payment_service.Service.Paystack.{
  PaystackService, InitiatePaystackChargeRequest, validate_charge,
}
use mkwanja_payment_service.Service.Paystack.Charge.{charge_replay, initiate_charge}

-- Nothing but the count of statements differs.
abbrev pub IsIdle : World → World → Type 0
IsIdle w w' = w' ≡ record w { tick = w'.tick }

-- Whether a client's key is in the table.
abbrev pub is_known : String → String → World → Bool
is_known client_id key w = any (has_key client_id key) w.payments

pub IsIdle-IsTimeless : (w : World) → IsTimeless (IsIdle w)
IsIdle-IsTimeless w = record { at = λ w' n h. ap (λ (v : World). record v { tick = n }) h }

is_known-IsIdle :
    (client_id key : String) (w w' : World)
    → IsIdle w w'
    → is_known client_id key w ≡ true
    → is_known client_id key w' ≡ true
is_known-IsIdle client_id key w w' h k = ap (is_known client_id key) h ∙ k

-- A row with a known key is refused, and nothing is written.
create_payment-known :
    (env : Env) (p : CreatePaymentParams) (w : World)
    → is_known p.client_id p.idempotency_key w ≡ true
    → let (r, w') = PaymentRepo.create_payment env p w in
      (succeeds r ≡ false) × (w' ≡ record w { tick = w.tick + 1 })
unfolding PaymentRepo.create_payment Payments.create_payment wrapped
create_payment-known env p w known = ground arith

module _ {A B : Type 0} {P : World → Type 0} where
  -- After a step that always raises, the rest does not run.
  Keeps-raising :
      (m : Action A) (f : A → Action B)
      → Keeps P m
      → ((w : World) → P w → succeeds (m w).0 ≡ false)
      → Keeps P (m >>= f)
  unfolding ◌>>=◌
  Keeps-raising m f km raises = record { at = λ w h. ground (arith, km.at w h, raises w h) }

wrapped-raises :
    {A : Type 0} (context : String) (m : Action A) (w : World)
    → succeeds (m w).0 ≡ false
    → succeeds (wrapped context m w).0 ≡ false
unfolding wrapped
wrapped-raises context m w h = ground arith

module _ (env : Env) (w : World) where
  module _ (p : CreatePaymentParams) (known : is_known p.client_id p.idempotency_key w ≡ true) where
    create_payment-IsIdle : Keeps (IsIdle w) (PaymentRepo.create_payment env p)
    create_payment-IsIdle = record {
      at = λ w' h.
          let e = (create_payment-known env p w' (is_known-IsIdle _ _ w w' h known)).1 in
          rw e ((IsIdle-IsTimeless w).at w' (w'.tick + 1) h);
    }

    -- The row of a payment is refused, so the request that follows it is not sent.
    pub row-IsIdle :
        {A : Type 0} (send : Payment → Action A)
        → Keeps (IsIdle w) (wrapped "create payment" (PaymentRepo.create_payment env p) >>= send)
    row-IsIdle send =
        Keeps-raising (wrapped "create payment" (PaymentRepo.create_payment env p)) send
          (Keeps-wrapped _ (PaymentRepo.create_payment env p) create_payment-IsIdle)
          (λ w' h.
            wrapped-raises _ (PaymentRepo.create_payment env p) w'
              (create_payment-known env p w' (is_known-IsIdle _ _ w w' h known)).0)

-- A valid Paystack charge whose client and key have a row is answered from that row, when the statement
-- that looks it up does not fail, and only the count of statements changes.
pub initiate_charge-replay :
    (env : Env) (s : PaystackService) (w : World) (p : Payment)
    (req : InitiatePaystackChargeRequest)
    → validate_charge req ≡ ok tt
    → env.fails w.tick ≡ false
    → find (has_key req.client_id req.idempotency_key) w.payments ≡ some p
    → initiate_charge env s req w ≡ (ok (charge_replay p), record w { tick = w.tick + 1 })
unfolding initiate_charge ◌>>=◌ PaymentRepo.get_payment_by_idempotency_key
    Payments.get_payment_by_idempotency_key query
initiate_charge-replay env s w p req valid up found = simp (valid, up, found)

module _ (env : Env) (s : PaymentService) (w : World) (p : Payment) where
  -- A valid STK push request whose client and key have a row is answered from that row, when the
  -- statement that looks it up does not fail, and only the count of statements changes.
  pub initiate_stk_push-replay :
      (req : InitiateStkPushRequest) (phone : String)
      → validate_stk_push req ≡ ok tt
      → normalise_phone req.phone_number ≡ ok phone
      → env.fails w.tick ≡ false
      → find (has_key req.client_id req.idempotency_key) w.payments ≡ some p
      → initiate_stk_push env s req w ≡ (ok (stk_replay p), record w { tick = w.tick + 1 })
  unfolding initiate_stk_push ◌>>=◌ PaymentRepo.get_payment_by_idempotency_key
      Payments.get_payment_by_idempotency_key query
  initiate_stk_push-replay req phone valid normal up found = simp (valid, normal, up, found)

  -- A valid B2C request whose client and key have a row is answered from that row, when the statement
  -- that looks it up does not fail, and only the count of statements changes.
  pub initiate_b2c-replay :
      (req : InitiateB2cRequest) (phone : String)
      → validate_b2c req ≡ ok tt
      → normalise_phone req.phone_number ≡ ok phone
      → env.fails w.tick ≡ false
      → find (has_key req.client_id req.idempotency_key) w.payments ≡ some p
      → initiate_b2c env s req w ≡ (ok (b2c_replay p), record w { tick = w.tick + 1 })
  unfolding initiate_b2c ◌>>=◌ PaymentRepo.get_payment_by_idempotency_key
      Payments.get_payment_by_idempotency_key query
  initiate_b2c-replay req phone valid normal up found = simp (valid, normal, up, found)

  -- A valid B2B request whose client and key have a row is answered from that row, when the statement
  -- that looks it up does not fail, and only the count of statements changes.
  pub initiate_b2b-replay :
      (req : InitiateB2bRequest)
      → validate_b2b req ≡ ok tt
      → env.fails w.tick ≡ false
      → find (has_key req.client_id req.idempotency_key) w.payments ≡ some p
      → initiate_b2b env s req w ≡ (ok (b2b_replay p), record w { tick = w.tick + 1 })
  unfolding initiate_b2b ◌>>=◌ PaymentRepo.get_payment_by_idempotency_key
      Payments.get_payment_by_idempotency_key query
  initiate_b2b-replay req valid up found = simp (valid, up, found)
