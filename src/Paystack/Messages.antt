-- ===== src/Paystack/Messages.antt =====
-- internal/paystack/client.go: the messages, the operations that the service calls, and
-- `VerifyWebhookSignature`. HMAC-SHA512 and hex are parameters.
use mkwanja_payment_service.Prelude.{ℕ, String, Bool, List, str_eq}
use mkwanja_payment_service.Prelude.Int.{ℤ}
use mkwanja_payment_service.Prelude.Result.{Result}

pub record InitializeTransactionRequest : Type 0 where
  pub email : String
  pub amount : ℤ
  pub currency : String
  pub reference : String
  pub callback_url : String

pub record InitializeTransactionData : Type 0 where
  pub authorization_url : String
  pub access_code : String
  pub reference : String

pub record VerifyTransactionData : Type 0 where
  pub status : String
  pub reference : String
  pub amount : ℤ
  pub currency : String
  pub id : ℤ

-- The event with the fields of its data.
pub record WebhookEvent : Type 0 where
  pub event : String
  pub reference : String
  pub status : String
  pub amount : ℤ
  pub currency : String
  pub id : ℤ

-- `PaystackAPI` of internal/service/paystack_service.go; a call may answer anything.
pub record PaystackApi : Type 0 where
  pub initialize_transaction : ℕ → InitializeTransactionRequest → Result InitializeTransactionData
  pub verify_transaction : ℕ → String → Result VerifyTransactionData

-- What Go's crypto/hmac with crypto/sha512, and encoding/hex, offer the service.
pub record Signing : Type 0 where
  -- the code of a body under a key
  pub mac : List ℕ → List ℕ → List ℕ
  pub hex : List ℕ → String
  -- `[]byte(s)`
  pub to_bytes : String → List ℕ

unfoldable pub verify_webhook_signature : Signing → String → List ℕ → String → Bool
verify_webhook_signature c secret_key body signature =
    str_eq (c.hex (c.mac (c.to_bytes secret_key) body)) signature
