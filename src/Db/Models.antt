-- ===== src/Db/Models.antt =====
-- internal/db/generated/models.go: the rows of the tables. A nullable column is an `Option`; a
-- time is a number; a raw JSON message is its text.
use mkwanja_payment_service.Prelude.{ℕ, String, Bool, Option, is_empty, none, some, if◌then◌else◌}
use mkwanja_payment_service.Prelude.Int.{ℤ}

pub data AccountType : Type 0 where
  asset liability revenue expense equity : AccountType

pub data EntryType : Type 0 where
  debit credit : EntryType

pub data NormalBalance : Type 0 where
  debit credit : NormalBalance

pub data PaymentDirection : Type 0 where
  inbound outbound : PaymentDirection

pub data PaymentProvider : Type 0 where
  mpesa stripe paystack : PaymentProvider

pub data PaymentStatus : Type 0 where
  pending processing completed failed cancelled reversed : PaymentStatus

pub data PaymentType : Type 0 where
  stk_push b2c b2b c2b paystack_charge : PaymentType

-- `string(payment.Status)` and `string(payment.PaymentType)`
abbrev pub status_text : PaymentStatus → String
status_text pending = "pending"
status_text processing = "processing"
status_text completed = "completed"
status_text failed = "failed"
status_text cancelled = "cancelled"
status_text reversed = "reversed"

abbrev pub type_text : PaymentType → String
type_text stk_push = "stk_push"
type_text b2c = "b2c"
type_text b2b = "b2b"
type_text c2b = "c2b"
type_text paystack_charge = "paystack_charge"

-- `sql.NullString{String: s, Valid: s != ""}`
abbrev pub null_string : String → Option String
null_string s = if is_empty s then none else some s

pub record AccountBalance : Type 0 where
  pub client_id : String
  pub account_id : String
  pub total_debits_cents : ℤ
  pub total_credits_cents : ℤ
  pub net_cents : ℤ

pub record Client : Type 0 where
  pub id : String
  pub external_id : String
  pub name : String
  pub active : Bool
  pub created_at : ℕ
  pub updated_at : ℕ

pub record ClientCredential : Type 0 where
  pub id : String
  pub client_id : String
  pub shortcode : String
  pub consumer_key_encrypted : String
  pub consumer_secret_encrypted : String
  pub passkey_encrypted : String
  pub initiator_name : Option String
  pub security_credential_encrypted : Option String
  pub is_active : Bool
  pub created_at : ℕ

pub record ClientPaystackCredential : Type 0 where
  pub id : String
  pub client_id : String
  pub secret_key_encrypted : String
  pub public_key : String
  pub is_active : Bool
  pub created_at : ℕ

pub record Journal : Type 0 where
  pub id : ℕ
  pub client_id : String
  pub payment_id : String
  pub account_id : String
  pub entry_type : EntryType
  pub amount_cents : ℤ
  pub currency : String
  pub description : String
  pub reversal_of : Option ℕ
  pub created_at : ℕ

pub record JournalAccount : Type 0 where
  pub id : String
  pub client_id : String
  pub name : String
  pub account_type : AccountType
  pub normal_balance : NormalBalance
  pub description : Option String
  pub created_at : ℕ

pub record Payment : Type 0 where
  pub id : String
  pub client_id : String
  pub idempotency_key : String
  pub provider : PaymentProvider
  pub payment_type : PaymentType
  pub direction : PaymentDirection
  pub status : PaymentStatus
  pub amount_cents : ℤ
  pub currency : String
  pub phone_number : Option String
  pub receiver_shortcode : Option String
  pub reference : String
  pub description : Option String
  pub provider_request_id : Option String
  pub provider_tx_id : Option String
  pub provider_receipt : Option String
  pub provider_raw : Option String
  pub callback_delivered : Bool
  pub metadata : Option String
  pub created_at : ℕ
  pub updated_at : ℕ
  pub completed_at : Option ℕ

pub record PaymentEvent : Type 0 where
  pub id : ℕ
  pub payment_id : String
  pub from_status : Option PaymentStatus
  pub to_status : PaymentStatus
  pub reason : Option String
  pub raw : Option String
  pub created_at : ℕ
