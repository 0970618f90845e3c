-- ===== src/Service/Initiate/Asks.antt =====
-- The request of an initiation, and the row of its payment: they have the same kind, amount and recipient
-- (internal/service/payment_service.go and internal/service/paystack_service.go).
use mkwanja_payment_service.Prelude.{
  String, true, false, ◌≡◌, refl, ap, ◌∙◌, str_eq, eq_iff, is_empty, arith,
}
use mkwanja_payment_service.Prelude.Int.{ℤ, eq_ℤ}
use mkwanja_payment_service.Prelude.Result.{ok}
use mkwanja_payment_service.Daraja.Messages.{Sent}
use mkwanja_payment_service.Db.Models.{ClientCredential}
use mkwanja_payment_service.Db.Payments.{CreatePaymentParams}
use mkwanja_payment_service.Service.Preserved.Backs.{is_worth, asks_for}
use mkwanja_payment_service.Service.Requests.{
  PaymentService, InitiateStkPushRequest, InitiateB2cRequest, InitiateB2bRequest, validate_stk_push,
  validate_b2c, validate_b2b,
}
use mkwanja_payment_service.Service.Paystack.{InitiatePaystackChargeRequest}
use mkwanja_payment_service.Service.Initiate.Common.{amount_kes}
use mkwanja_payment_service.Service.Initiate.Amount.{
  IsExact, validate_stk_push-IsExact, validate_b2c-IsExact, validate_b2b-IsExact,
}
use mkwanja_payment_service.Service.Initiate.StkPush.{stk_payment, stk_request}
use mkwanja_payment_service.Service.Initiate.B2c.{b2c_payment, b2c_request}
use mkwanja_payment_service.Service.Initiate.B2b.{b2b_payment, b2b_request}
use mkwanja_payment_service.Service.Paystack.Charge.{charge_payment, charge_request}

abbrev pub Asks : CreatePaymentParams → Sent → Type 0
Asks p r = asks_for r p.payment_type p.amount_cents p.phone_number p.receiver_shortcode ≡ true

equals_itself : (a : ℤ) → eq_ℤ a a ≡ true
equals_itself a = ground arith

IsExact-worth : (cents : ℤ) → IsExact cents → is_worth (amount_kes cents) cents ≡ true
IsExact-worth cents (positive, exact) = ap (λ z. eq_ℤ z cents) exact ∙ equals_itself cents

receiver_present :
    (req : InitiateB2bRequest) → validate_b2b req ≡ ok tt → is_empty req.receiver_shortcode ≡ false
unfolding validate_b2b
receiver_present req valid = ground arith

same : (s : String) → str_eq s s ≡ true
same s = (eq_iff s s).1 refl

module _ (s : PaymentService) where
  pub stk-Asks :
      (req : InitiateStkPushRequest) (phone : String)
      → validate_stk_push req ≡ ok tt
      → (creds : ClientCredential)
      → Asks (stk_payment req phone) (Sent.stk (stk_request s req phone creds))
  stk-Asks req phone valid creds =
      rw (IsExact-worth _ (validate_stk_push-IsExact req valid), same phone) refl

  pub b2c-Asks :
      (req : InitiateB2cRequest) (phone : String)
      → validate_b2c req ≡ ok tt
      → (creds : ClientCredential) (security : String)
      → Asks (b2c_payment req phone) (Sent.b2c (b2c_request s req phone creds security))
  b2c-Asks req phone valid creds security =
      rw (IsExact-worth _ (validate_b2c-IsExact req valid), same phone) refl

  pub b2b-Asks :
      (req : InitiateB2bRequest)
      → validate_b2b req ≡ ok tt
      → (creds : ClientCredential) (security : String)
      → Asks (b2b_payment req) (Sent.b2b (b2b_request s req creds security))
  b2b-Asks req valid creds security =
      let present : is_empty req.receiver_shortcode ≡ false = receiver_present req valid in
      rw (present, IsExact-worth _ (validate_b2b-IsExact req valid), same req.receiver_shortcode)
        refl

pub charge-Asks :
    (req : InitiatePaystackChargeRequest) (id : String)
    → Asks (charge_payment req) (Sent.paystack (charge_request req id))
charge-Asks req id = equals_itself req.amount_cents
