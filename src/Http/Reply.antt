-- ===== src/Http/Reply.antt =====
-- What internal/handler answers.
use mkwanja_payment_service.Prelude.{ℕ, String, Bool, false, List, Option, none}
use mkwanja_payment_service.Prelude.Int.{ℤ}
use mkwanja_payment_service.Prelude.Result.{Result, ok, err}
use mkwanja_payment_service.Db.Models.{
  PaymentProvider, PaymentType, PaymentDirection, PaymentStatus, EntryType,
}
use mkwanja_payment_service.Db.World.{World}
use mkwanja_payment_service.Db.Action.{Action}

-- The fields of a payment that GET /v1/payments/:id shows.
pub record PaymentView : Type 0 where
  pub id : String
  pub client_id : String
  pub idempotency_key : String
  pub provider : PaymentProvider
  pub payment_type : PaymentType
  pub direction : PaymentDirection
  pub status : PaymentStatus
  pub amount_cents : ℤ
  pub currency : String
  pub phone_number : Option String
  pub reference : String
  pub description : Option String
  pub provider_request_id : Option String
  pub provider_tx_id : Option String
  pub provider_receipt : Option String
  pub created_at : ℕ
  pub updated_at : ℕ
  pub completed_at : Option ℕ

-- The fields that GET /v1/payments lists.
pub record PaymentItem : Type 0 where
  pub id : String
  pub client_id : String
  pub provider : PaymentProvider
  pub payment_type : PaymentType
  pub status : PaymentStatus
  pub amount_cents : ℤ
  pub currency : String
  pub reference : String
  pub created_at : ℕ

pub record ClientItem : Type 0 where
  pub id : String
  pub external_id : String
  pub name : String
  pub active : Bool
  pub created_at : ℕ

pub record EntryItem : Type 0 where
  pub id : ℕ
  pub client_id : String
  pub payment_id : String
  pub account_id : String
  pub entry_type : EntryType
  pub amount_cents : ℤ
  pub currency : String
  pub description : String
  pub created_at : ℕ

pub record BalanceItem : Type 0 where
  pub account_id : String
  pub total_debits_cents : ℤ
  pub total_credits_cents : ℤ
  pub net_cents : ℤ

pub record KeysView : Type 0 where
  pub id : String
  pub client_id : String
  pub public_key : String
  pub active : Bool
  pub created_at : ℕ

-- A JSON object, by its fields.
pub data Body : Type 0 where
  -- error: code, message; retryable is false everywhere
  error : String → String → Body
  state : String → Body
  done : String → String → Body
  -- payment_id, checkout_request_id, status
  push : String → String → String → Body
  -- payment_id, conversation_id, originator_conversation_id, status
  transfer : String → String → String → String → Body
  -- payment_id, authorization_url, access_code, status
  charge : String → String → String → String → Body
  payment : PaymentView → Body
  -- payments, limit, offset
  payments : List PaymentItem → ℤ → ℤ → Body
  registered : ClientItem → Body
  -- a client, with updated_at
  client : ClientItem → ℕ → Body
  clients : List ClientItem → Body
  keys : KeysView → Body
  entries : List EntryItem → ℤ → ℤ → Body
  balances : List BalanceItem → Body
  trial_balance : List BalanceItem → Body
  -- ResultCode, ResultDesc
  result : ℕ → String → Body
  -- the issues, by the name of the part
  degraded : List (String × String) → Body

-- A callback that is handed to the queue: the consumer of the path, and the raw body.
pub data Task : Type 0 where
  stk : String → List ℕ → Task
  b2c : String → List ℕ → Task
  b2b : String → List ℕ → Task

pub record Reply : Type 0 where
  pub status : ℕ
  -- the header Idempotency-Replayed
  pub replayed : Bool
  pub body : Body
  -- what is handed to the queue
  pub queued : Option Task

abbrev pub reply : ℕ → Body → Reply
reply code body = record { status = code; replayed = false; body = body; queued = none }

-- c.Status(status).JSON(errResp(code, message))
abbrev pub refuse : ℕ → String → String → Reply
refuse http code message = reply http (Body.error code message)

abbrev pub Handler : Type 0
Handler = World → Reply × World

-- The handler that goes on only if the body parses.
abbrev pub parsed : {B : Type 0} → Result B → (B → Handler) → Handler
parsed (err e) go w = (refuse 400 "INVALID_REQUEST" "Invalid JSON body", w)
parsed (ok b) go w = go b w

-- A call of a service, and the answer for its result.
abbrev pub respond : {A : Type 0} → Action A → (Result A → Reply) → Handler
respond m answer w = let (r, w') = m w in (answer r, w')

-- A call that answers without the database.
abbrev pub answered : Reply → Handler
answered r w = (r, w)
