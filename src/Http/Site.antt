-- ===== src/Http/Site.antt =====
-- `Dependencies` of internal/router/router.go: what the handlers are made from, and what they take from
-- libraries.
use mkwanja_payment_service.Prelude.{⊤, ℕ, String, Bool, List}
use mkwanja_payment_service.Prelude.Result.{Result, Error}
use mkwanja_payment_service.Config.{Surroundings, ConsumerRegistry}
use mkwanja_payment_service.Service.Requests.{PaymentService}
use mkwanja_payment_service.Service.Paystack.{PaystackService}
use mkwanja_payment_service.Http.Messages.{Parser}
use mkwanja_payment_service.Http.Reply.{Reply}

-- What `db.Registry.Get` finds for a consumer: nothing, the database of the `World`, or another one, whose
-- requests are answered somehow and leave this one alone.
pub data Pool : Type 0 where
  missing : Pool
  this : Pool
  another : Reply → Pool

pub record Site : Type 0 where
  pub os : Surroundings
  pub consumers : ConsumerRegistry
  pub pools : String → Pool
  pub parser : Parser
  -- err.Error()
  pub describe : Error → String
  -- uuid.Parse(key) returns no error
  pub is_uuid : String → Bool
  pub payments : PaymentService
  pub paystack : PaystackService
  pub encrypt_key : List ℕ
  pub operator_client_id : String
  -- h.enqueuer != nil
  pub has_enqueuer : Bool
  pub redis_ping : Result ⊤
  pub db_pings : List (String × Result ⊤)
