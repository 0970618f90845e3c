-- ===== src/Domain/Entity.antt =====
-- The `Validate` methods of internal/domain/payment.go and internal/domain/client.go.
use mkwanja_payment_service.Prelude.{
  ⊤, String, Bool, false, not, Option, none, some, is_empty, if◌then◌else◌,
}
use mkwanja_payment_service.Prelude.Int.{ℤ, pos, leb_ℤ}
use mkwanja_payment_service.Prelude.Result.{Result, ok, ◌fails_with◌then◌}
use mkwanja_payment_service.Domain.Phone.{is_phone}

-- The fields of `domain.Payment` that its rules read.
pub record Payment : Type 0 where
  pub client_id : String
  pub idempotency_key : String
  pub amount_cents : ℤ
  pub reference : String
  pub phone_number : Option String

-- p.PhoneNumber != nil && !phoneRegexp.MatchString(*p.PhoneNumber)
unfoldable pub bad_phone : Option String → Bool
bad_phone none = false
bad_phone (some phone) = not (is_phone phone)

unfoldable pub validate_payment : Payment → Result ⊤
unfolding bad_phone
validate_payment p =
    is_empty p.client_id fails_with "client_id is required"
    then is_empty p.idempotency_key fails_with "idempotency_key is required"
    then leb_ℤ p.amount_cents (pos 0) fails_with "amount_cents must be positive"
    then is_empty p.reference fails_with "reference is required"
    then bad_phone p.phone_number fails_with "phone_number must be in format 2547XXXXXXXX"
    then ok tt

pub record Client : Type 0 where
  pub external_id : String
  pub name : String

unfoldable pub validate_client : Client → Result ⊤
validate_client c =
    is_empty c.external_id fails_with "external_id is required"
    then is_empty c.name fails_with "name is required"
    then ok tt
