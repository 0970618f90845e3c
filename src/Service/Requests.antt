-- ===== src/Service/Requests.antt =====
-- The requests and results of internal/service/payment_service.go, and their `Validate` methods.
use mkwanja_payment_service.Prelude.{⊤, ℕ, String, Bool, List, not, is_empty, if◌then◌else◌}
use mkwanja_payment_service.Prelude.Int.{ℤ, pos, leb_ℤ, eq_ℤ, rem_ℤ}
use mkwanja_payment_service.Prelude.Result.{Result, ok, ◌fails_with◌then◌}
use mkwanja_payment_service.Daraja.Messages.{DarajaClient}

pub record InitiateStkPushRequest : Type 0 where
  pub client_id : String
  pub consumer_id : String
  pub amount_cents : ℤ
  pub currency : String
  pub phone_number : String
  pub reference : String
  pub description : String
  pub idempotency_key : String

pub record InitiateB2cRequest : Type 0 where
  pub client_id : String
  pub consumer_id : String
  pub amount_cents : ℤ
  pub currency : String
  pub phone_number : String
  pub reference : String
  pub description : String
  pub idempotency_key : String
  pub command_id : String
  pub remarks : String
  pub occasion : String

pub record InitiateB2bRequest : Type 0 where
  pub client_id : String
  pub consumer_id : String
  pub amount_cents : ℤ
  pub currency : String
  pub receiver_shortcode : String
  pub reference : String
  pub description : String
  pub idempotency_key : String
  pub command_id : String
  pub sender_id_type : String
  pub receiver_id_type : String
  pub remarks : String

pub record InitiateStkPushResult : Type 0 where
  pub payment_id : String
  pub checkout_request_id : String
  pub status : String
  pub idempotency_replayed : Bool

pub record InitiateB2cResult : Type 0 where
  pub payment_id : String
  pub conversation_id : String
  pub originator_conv_id : String
  pub status : String
  pub idempotency_replayed : Bool

pub record InitiateB2bResult : Type 0 where
  pub payment_id : String
  pub conversation_id : String
  pub originator_conv_id : String
  pub status : String
  pub idempotency_replayed : Bool

-- The fields of `PaymentService` that are no repository; the repositories are the modules of
-- `Repository`.
pub record PaymentService : Type 0 where
  pub encrypt_key : List ℕ
  pub callback_url : String
  -- rdb != nil
  pub has_redis : Bool
  -- from the consumer key, the consumer secret, the shortcode and the passkey
  pub build_client : String → String → String → String → DarajaClient

-- r.AmountCents%100 != 0
abbrev pub has_remainder : ℤ → Bool
has_remainder amount = not (eq_ℤ (rem_ℤ amount 100) (pos 0))

unfoldable pub validate_stk_push : InitiateStkPushRequest → Result ⊤
validate_stk_push r =
    is_empty r.client_id fails_with "client_id is required"
    then leb_ℤ r.amount_cents (pos 0) fails_with "amount_cents must be positive"
    then has_remainder r.amount_cents
      fails_with "amount_cents must be a whole number of shillings (multiple of 100)"
    then is_empty r.phone_number fails_with "phone_number is required"
    then is_empty r.reference fails_with "reference is required"
    then is_empty r.idempotency_key fails_with "idempotency_key is required"
    then ok tt

unfoldable pub validate_b2c : InitiateB2cRequest → Result ⊤
validate_b2c r =
    is_empty r.client_id fails_with "client_id is required"
    then leb_ℤ r.amount_cents (pos 0) fails_with "amount_cents must be positive"
    then has_remainder r.amount_cents
      fails_with "amount_cents must be a whole number of shillings (multiple of 100)"
    then is_empty r.phone_number fails_with "phone_number is required"
    then is_empty r.reference fails_with "reference is required"
    then is_empty r.idempotency_key fails_with "idempotency_key is required"
    then ok tt

unfoldable pub validate_b2b : InitiateB2bRequest → Result ⊤
validate_b2b r =
    is_empty r.client_id fails_with "client_id is required"
    then leb_ℤ r.amount_cents (pos 0) fails_with "amount_cents must be positive"
    then has_remainder r.amount_cents
      fails_with "amount_cents must be a whole number of shillings (multiple of 100)"
    then is_empty r.receiver_shortcode fails_with "receiver_shortcode is required"
    then is_empty r.reference fails_with "reference is required"
    then is_empty r.idempotency_key fails_with "idempotency_key is required"
    then ok tt
