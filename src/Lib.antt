-- ===== src/Lib.antt =====
-- The payment service of this repository (Go): it takes payment requests of a business (a client of a
-- consumer), asks M-PESA for the money through the Daraja API, keeps each payment as a row of the
-- consumer's database, and books what was paid in a double-entry journal.
--
-- The parts and how they interact. A request is checked and answered by the payment service
-- (internal/service/payment_service.go); it calls the repositories (internal/repository), which call the
-- generated statements (internal/db/generated) on the tables of internal/db/migrations/consumer. When a
-- provider reports the end of a payment, the same service settles it and calls the journal service
-- (internal/service/journal_service.go), which checks the balance (internal/domain/journal.go) and writes
-- the entries in one transaction. A push stores a routing value in Redis, by which the queue worker
-- (internal/queue/worker.go) finds the payment of a callback; a reconciliation cycle
-- (internal/service/reconciliation_service.go) asks the provider about payments that stay pending. Clients,
-- their credentials and their accounts come from internal/service/client_service.go. Card payments go
-- through internal/service/paystack_service.go, which settles them from signed webhooks. Over HTTP a request
-- passes the checks of its consumer and of its key (internal/middleware), and the handlers
-- (internal/handler) call the services; internal/router puts them together. cmd/server/main.go connects the
-- databases of all consumers (internal/db/registry.go), seeds the operator's client, starts the worker, and
-- then serves requests beside a ticker that runs the reconciliation.
--
-- Which file models what:
--   Prelude      Go's strings, integers, errors and formatting, and lists, over the native numbers
--   Crypto       internal/crypto/credentials.go
--   Daraja       internal/daraja: the messages and the interface that the services call (Messages), the
--                client with the cache of its access token (Client), its calls (Client.Calls), NormalizePhone
--                (Phone)
--   Paystack     internal/paystack: the messages and the check of a signature (Messages), the client (Client)
--   Config       internal/config/config.go
--   Db           the rows (Models), the state (World), what a call may do (Action), the statements
--                (Payments, Journal, Clients), what they keep (Keeps, Payments.Table, Journal.Balance)
--   Repository   internal/repository; JournalRepo.Atomic is about the transaction of the bulk write
--   Domain       internal/domain: Phone, Ledger (the balance check), Entity (the Validate methods)
--   Service      internal/service: Requests, Initiate (one module for each kind of payment), Settle (Settle.Ends:
--                how a settlement ends, for the rows and the journal), Ledger, Reconcile (Reconcile.Settles: what
--                a cycle makes of the rows), Clients, Paystack; Initiations is the four kinds of payment as one type,
--                and Initiations.Errors, with Initiate.Failed, is about the calls that return an error, and
--                Initiations.Made, with Initiate.Made, about those that return a payment (Initiations.Again: the
--                same call again; Initiate.Routed: its route in Redis; Initiate.Asks: its request);
--                Preserved, Steps and Reads are about the invariants that every operation keeps, Reach is
--                the service over time
--   Queue        internal/queue: Worker (worker.go, with internal/service/tenant_completer.go), Tasks
--                (enqueuer.go and jobs.go), and Push, the route of a push and the payload
--                of its callback
--   Server       the process: the registry of databases (Registry, internal/db/registry.go), the start (Start,
--                cmd/server/main.go), and what it does then, as a sequence of requests, tasks and ticks (Paid:
--                from a push over its callback, and the queue, to the completed payment; Settles: a tick of the
--                reconciliation; Start.Wiring: the services that main and the adapters of
--                internal/router/router.go make; Start.Sound: what holds of every database from the start on)
--   Http         internal/handler (Payments, Clients, Ledger, Paystack, Webhooks), what they read
--                (Messages) and answer (Reply), and internal/router with internal/middleware (Router)
--   Tests        concrete inputs
--
-- How the state is modelled. A World is the database of one consumer, the routing keys in Redis, and a log
-- of the requests handed to the providers. New rows stand first in a table. An operation is a function from
-- a World to a result and a World, because what was written before an error stays written; a transaction
-- puts the tables back. An Env says what the outside decides: whether the n-th statement fails (before it
-- changes anything), the random ids, the clock, the random bytes, the cipher. An Env is
-- arbitrary, and so is the pattern of failing statements. Each call is one step; calls of different requests are
-- ordered one after the other, and the constraints of the tables are checked by the statement that inserts
-- a row, as the database does. Amounts are integers, and the arithmetic of the balance check wraps around
-- as int64 does. The sums of the view account_balances are exact, as NUMERIC sums are.
--
-- Bounds and fuel. Only the decimal text of a number uses fuel, one more than the number, which is enough
-- (Prelude.Decimal.Value).
--
-- A request over HTTP comes with its route, since Fiber finds it, and with its headers and parameters as the
-- handlers read them. The parsers of bodies, bcrypt, the environment variables, uuid.Parse and the texts of
-- errors are fields of a Site. Below Server, a consumer's database is the one of the World, or another one,
-- whose requests are answered somehow and leave the World alone. A Server has one Redis and the databases of
-- all consumers: a call runs on the World of its consumer's database with the keys of that Redis, and what it
-- leaves is put back, the keys into Redis and the rest into the database.
--
-- Not modelled: logging and recovery from panics, JSON and HTTP themselves; the expiry of a
-- routing key after 30 minutes and of an access token after 50 (a lookup may fail); the bodies of the C2B
-- callbacks; app.Listen, the signals and the shutdown, and the ping wrapper of cmd/server/main.go. The
-- services take the clients of the providers as functions that may answer anything; what those clients do is
-- modelled apart. JSON, the queue of asynq, pgxpool and the migrations by goose are parameters. The cipher,
-- base64, hex and HMAC are parameters, with what is documented of them as hypotheses of the one theorem that
-- needs them. The provider is a parameter that may answer anything; the theorem about settled payments assumes
-- that it answers.
pub mod Prelude
pub mod Crypto
pub mod Daraja
pub mod Db
pub mod Repository
pub mod Domain
pub mod Service
pub mod Config
pub mod Http
pub mod Paystack
pub mod Queue
pub mod Server
pub mod Tests
