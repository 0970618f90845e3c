-- ===== src/Db/World.antt =====
-- What the service acts on. `World` is one consumer's database (the tables of
-- internal/db/migrations/consumer), the Redis routing keys, and a log of the requests handed to the
-- payment providers. `Env` is what the world outside decides: which statements fail, the random ids,
-- the clock, the random bytes.
use mkwanja_payment_service.Prelude.{ℕ, String, Bool, List, Option}
use mkwanja_payment_service.Db.Models.{
  Payment, PaymentEvent, Journal, JournalAccount, Client, ClientCredential,
  ClientPaystackCredential,
}
use mkwanja_payment_service.Crypto.{Primitives}
use mkwanja_payment_service.Daraja.Messages.{Sent}

pub record World : Type 0 where
  -- statements and calls so far: what `Env` answers is indexed by it
  pub tick : ℕ
  pub payments : List Payment
  pub events : List PaymentEvent
  -- the sequence behind payment_events.id
  pub event_seq : ℕ
  pub journal : List Journal
  -- the sequence behind journal.id
  pub journal_seq : ℕ
  pub accounts : List JournalAccount
  pub clients : List Client
  pub credentials : List ClientCredential
  pub paystack_credentials : List ClientPaystackCredential
  -- the Redis keys that route a webhook, with their values, the last one first
  pub routes : List (String × String)
  -- the requests handed to the providers, the last one first
  pub sent : List Sent

pub record Env : Type 0 where
  -- whether the statement fails before it changes anything: a lost connection, a cancelled context
  pub fails : ℕ → Bool
  -- `gen_random_uuid()::TEXT`
  pub uuid : ℕ → String
  -- `NOW()` and `time.Now()`
  pub now : ℕ → ℕ
  -- the bytes of `rand.Reader`, or its failure
  pub random : ℕ → Option (List ℕ)
  pub crypto : Primitives
