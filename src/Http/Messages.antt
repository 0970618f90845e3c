-- ===== src/Http/Messages.antt =====
-- The JSON bodies of requests that internal/handler reads, and what it asks of Fiber about a request.
use mkwanja_payment_service.Prelude.{ℕ, String, List, Option, none, some}
use mkwanja_payment_service.Prelude.Int.{ℤ}
use mkwanja_payment_service.Prelude.Result.{Result}

pub record InitiateStkPushBody : Type 0 where
  pub client_id : String
  pub amount_cents : ℤ
  pub currency : String
  pub phone_number : String
  pub reference : String
  pub description : String

pub record InitiateB2cBody : Type 0 where
  pub client_id : String
  pub amount_cents : ℤ
  pub currency : String
  pub phone_number : String
  pub reference : String
  pub description : String
  pub command_id : String
  pub remarks : String
  pub occasion : String

pub record InitiateB2bBody : Type 0 where
  pub client_id : String
  pub amount_cents : ℤ
  pub currency : String
  pub receiver_shortcode : String
  pub reference : String
  pub description : String
  pub command_id : String
  pub sender_id_type : String
  pub receiver_id_type : String
  pub remarks : String

pub record RegisterClientBody : Type 0 where
  pub external_id : String
  pub name : String
  pub shortcode : String
  pub consumer_key : String
  pub consumer_secret : String
  pub passkey : String
  pub initiator_name : String
  pub security_credential : String

pub record TestCredentialsBody : Type 0 where
  pub consumer_key : String
  pub consumer_secret : String
  pub shortcode : String

pub record UpdateCredentialsBody : Type 0 where
  pub shortcode : String
  pub consumer_key : String
  pub consumer_secret : String
  pub passkey : String
  pub initiator_name : String
  pub security_credential : String

pub record RegisterCredentialsBody : Type 0 where
  pub secret_key : String
  pub public_key : String

pub record InitiateChargeBody : Type 0 where
  pub client_id : String
  pub amount_cents : ℤ
  pub currency : String
  pub email : String
  pub reference : String
  pub description : String
  pub callback_url : String

-- Fiber's `BodyParser`, for each type of body.
pub record Parser : Type 0 where
  pub stk_push : List ℕ → Result InitiateStkPushBody
  pub b2c : List ℕ → Result InitiateB2cBody
  pub b2b : List ℕ → Result InitiateB2bBody
  pub client : List ℕ → Result RegisterClientBody
  pub test : List ℕ → Result TestCredentialsBody
  pub update : List ℕ → Result UpdateCredentialsBody
  pub keys : List ℕ → Result RegisterCredentialsBody
  pub charge : List ℕ → Result InitiateChargeBody

-- What the handlers read of a request. A header or a parameter that is missing is the empty text.
pub record Request : Type 0 where
  -- the headers X-Consumer-ID, X-Service-Secret, Idempotency-Key and x-paystack-signature
  pub consumer_id : String
  pub service_secret : String
  pub idempotency_key : String
  pub signature : String
  -- the query parameters client_id, limit and offset; a number is read by Fiber's `QueryInt`
  pub client_id : String
  pub limit : Option ℤ
  pub offset : Option ℤ
  pub body : List ℕ

-- c.QueryInt(name, fallback)
abbrev pub query_int : Option ℤ → ℤ → ℤ
query_int none fallback = fallback
query_int (some n) fallback = n

-- What the middleware leaves in the context of a request: `c.Locals`.
pub record Locals : Type 0 where
  pub consumer_id : String
  pub idempotency_key : String
