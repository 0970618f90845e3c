-- ===== src/Service/Paystack.antt =====
-- internal/service/paystack_service.go: the keys of a business, and the requests of the service.
pub mod Charge
pub mod Webhook
pub mod Genuine
pub mod Settles
use mkwanja_payment_service.Prelude.{⊤, ℕ, String, Bool, List, is_empty, if◌then◌else◌}
use mkwanja_payment_service.Prelude.Int.{ℤ, pos, leb_ℤ}
use mkwanja_payment_service.Prelude.Result.{Result, ok, wrap_err, ◌fails_with◌then◌}
use mkwanja_payment_service.Paystack.Messages.{PaystackApi, Signing, WebhookEvent}
use mkwanja_payment_service.Db.Models.{ClientPaystackCredential}
use mkwanja_payment_service.Db.World.{Env}
use mkwanja_payment_service.Db.Action.{Action, lift, wrapped, ◌>>=◌, ◌>>◌}
use mkwanja_payment_service.Repository.ClientRepo
use mkwanja_payment_service.Service.Clients.{sealed}

-- The fields of `PaystackService` that are no repository, and the two libraries that its webhook calls.
-- The completer is the payment service on the same database (internal/router/router.go).
pub record PaystackService : Type 0 where
  pub encrypt_key : List ℕ
  pub build_client : String → PaystackApi
  pub signing : Signing
  -- json.Unmarshal into a `WebhookEvent`
  pub parse : List ℕ → Result WebhookEvent

pub record RegisterPaystackCredentialsRequest : Type 0 where
  pub client_id : String
  pub secret_key : String
  pub public_key : String

unfoldable pub validate_keys : RegisterPaystackCredentialsRequest → Result ⊤
validate_keys r =
    is_empty r.client_id fails_with "client_id is required"
    then is_empty r.secret_key fails_with "secret_key is required"
    then is_empty r.public_key fails_with "public_key is required"
    then ok tt

pub record InitiatePaystackChargeRequest : Type 0 where
  pub client_id : String
  pub consumer_id : String
  pub amount_cents : ℤ
  pub currency : String
  pub email : String
  pub reference : String
  pub description : String
  pub callback_url : String
  pub idempotency_key : String

unfoldable pub validate_charge : InitiatePaystackChargeRequest → Result ⊤
validate_charge r =
    is_empty r.client_id fails_with "client_id is required"
    then leb_ℤ r.amount_cents (pos 0) fails_with "amount_cents must be positive"
    then is_empty r.email fails_with "email is required"
    then is_empty r.reference fails_with "reference is required"
    then is_empty r.idempotency_key fails_with "idempotency_key is required"
    then ok tt

pub record InitiatePaystackChargeResult : Type 0 where
  pub payment_id : String
  pub authorization_url : String
  pub access_code : String
  pub status : String
  pub idempotency_replayed : Bool

unfoldable pub register_credentials :
    Env → PaystackService → RegisterPaystackCredentialsRequest → Action ClientPaystackCredential
unfolding sealed
register_credentials env s r = do
  lift (wrap_err "validation" (validate_keys r))
  secret ← sealed env s.encrypt_key "encrypt secret key" r.secret_key
  wrapped "deactivate old credentials" (ClientRepo.deactivate_paystack_credentials env r.client_id)
  wrapped "create paystack credentials" (
      ClientRepo.create_paystack_credentials env (record {
        client_id = r.client_id;
        secret_key_encrypted = secret;
        public_key = r.public_key;
      }))
