-- ===== src/Service/Initiations/Made.antt =====
-- What an initiation that returns no error leaves (internal/service/payment_service.go and
-- internal/service/paystack_service.go).
pub mod Rows
pub mod Each
use mkwanja_payment_service.Prelude.{
  ⊤, ℕ, ◌+◌, String, ◌≡◌, refl, sym, ap, ◌∙◌, false, true, not, Bool, List, ◌∷◌, any, ◌⊎◌, inl, inr,
  arith, Option, none, some,
}
use mathlib.Core.Path.{subst}
use mkwanja_payment_service.Prelude.Int.{ℤ}
use mkwanja_payment_service.Prelude.Result.{Result, ok, err, succeeds, wrap_err}
use mkwanja_payment_service.Daraja.Messages.{Sent}
use mkwanja_payment_service.Db.Models.{Payment, pending}
use mkwanja_payment_service.Db.World.{World, Env}
use mkwanja_payment_service.Db.Action.{
  Action, pure, lift, attempt, wrapped, statement, continue, ◌>>=◌,
}
use mkwanja_payment_service.Db.Keeps.{Keeps, Keeps-attempt, Keeps-wrapped, Keeps-query}
use mkwanja_payment_service.Db.Payments
use mkwanja_payment_service.Db.Payments.{
  CreatePaymentParams, has_id, new_payment, insert_payment, with_request_id,
}
use mkwanja_payment_service.Domain.Phone.{normalise_phone}
use mkwanja_payment_service.Repository.PaymentRepo
use mkwanja_payment_service.Service.Preserved.Backs.{is_row_of}
use mkwanja_payment_service.Service.Requests.{
  PaymentService, InitiateStkPushRequest, InitiateB2cRequest, InitiateB2bRequest,
  InitiateStkPushResult, InitiateB2cResult, InitiateB2bResult, validate_stk_push, validate_b2c,
  validate_b2b,
}
use mkwanja_payment_service.Service.Paystack.{
  PaystackService, InitiatePaystackChargeRequest, InitiatePaystackChargeResult, validate_charge,
}
use mkwanja_payment_service.Service.Initiate.StkPush.{
  stk_payment, stk_replay, start_stk_push, send_stk_push, initiate_stk_push,
}
use mkwanja_payment_service.Service.Initiate.B2c.{
  b2c_payment, b2c_replay, start_b2c, send_b2c, initiate_b2c,
}
use mkwanja_payment_service.Service.Initiate.B2b.{
  b2b_payment, b2b_replay, start_b2b, send_b2b, initiate_b2b,
}
use mkwanja_payment_service.Service.Paystack.Charge.{
  charge_payment, charge_replay, start_charge, send_charge, initiate_charge,
}
use mkwanja_payment_service.Service.Initiate.Shape.{row_then, wrapped-ok}
use mkwanja_payment_service.Service.Initiate.Asks.{stk-Asks, b2c-Asks, b2b-Asks, charge-Asks}
use mkwanja_payment_service.Service.Initiate.Made.{Gives, Gives-bind, Gives-Keeps, IsMade, IsDone}
use mkwanja_payment_service.Service.Initiate.Made.Kinds.{
  send_stk_push-Done, send_b2c-Done, send_b2b-Done, send_charge-Done,
}
use mkwanja_payment_service.Service.Initiations.{Initiation, client_of, key_of, after}
use mkwanja_payment_service.Service.Initiations.Made.Rows.{IsNew}
use mkwanja_payment_service.Service.Initiations.Made.Each.{
  initiate_stk_push-gives, initiate_b2c-gives, initiate_b2b-gives, initiate_charge-gives,
}

-- The id of the payment that the call returned and whether it is a replay, if there is no error.
abbrev pub made : {A : Type 0} → (A → String × Bool) → Result A → Option (String × Bool)
made f (ok a) = some (f a)
made f (err e) = none

abbrev pub returned : Env → PaymentService → Initiation → World → Option (String × Bool)
returned env s (Initiation.stk req) w =
    made (λ r. (r.payment_id, r.idempotency_replayed)) (initiate_stk_push env s req w).0
returned env s (Initiation.b2c req) w =
    made (λ r. (r.payment_id, r.idempotency_replayed)) (initiate_b2c env s req w).0
returned env s (Initiation.b2b req) w =
    made (λ r. (r.payment_id, r.idempotency_replayed)) (initiate_b2b env s req w).0
returned env s (Initiation.charge p req) w =
    made (λ r. (r.payment_id, r.idempotency_replayed)) (initiate_charge env p req w).0

abbrev pub amount_of : Initiation → ℤ
amount_of (Initiation.stk req) = req.amount_cents
amount_of (Initiation.b2c req) = req.amount_cents
amount_of (Initiation.b2b req) = req.amount_cents
amount_of (Initiation.charge p req) = req.amount_cents

made-new :
    {A : Type 0} (f : A → String × Bool) (P : String → Type 0) (r : Result A) (id : String)
    → ((a : A) → r ≡ ok a → ((f a).1 ≡ true) ⊎ P (f a).0)
    → made f r ≡ some (id, false)
    → P id
made-new f P (ok a) id gives h = elim (gives a refl) [
  | inl replayed ↦ ground (arith, replayed, h)
  | inr new ↦ subst P (ground (arith, h)) new
]
made-new f P (err e) id gives h = ground (arith, h)

-- An initiation of any kind that returns a payment which is no replay, whichever statements fail: there is one
-- new row, first in the table, pending, with the id that was returned and the client, the key and the amount
-- of the call, and one new request to a provider, for the kind, amount and recipient of that row. All other rows
-- and requests are as before.
pub returned-IsNew :
    (env : Env) (s : PaymentService) (a : Initiation) (w : World) (id : String)
    → returned env s a w ≡ some (id, false)
    → IsNew id (client_of a) (key_of a) (amount_of a) w (after env s a w)
returned-IsNew env s (Initiation.stk req) w id =
    made-new _ (λ i. IsNew i _ _ _ w (initiate_stk_push env s req w).1)
      (initiate_stk_push env s req w).0 id
      (λ r. initiate_stk_push-gives w env s req w r (refl, refl))
returned-IsNew env s (Initiation.b2c req) w id =
    made-new _ (λ i. IsNew i _ _ _ w (initiate_b2c env s req w).1) (initiate_b2c env s req w).0 id
      (λ r. initiate_b2c-gives w env s req w r (refl, refl))
returned-IsNew env s (Initiation.b2b req) w id =
    made-new _ (λ i. IsNew i _ _ _ w (initiate_b2b env s req w).1) (initiate_b2b env s req w).0 id
      (λ r. initiate_b2b-gives w env s req w r (refl, refl))
returned-IsNew env s (Initiation.charge p req) w id =
    made-new _ (λ i. IsNew i _ _ _ w (initiate_charge env p req w).1)
      (initiate_charge env p req w).0 id (λ r. initiate_charge-gives w env p req w r (refl, refl))
