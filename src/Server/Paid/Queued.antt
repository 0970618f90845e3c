-- ===== src/Server/Paid/Queued.antt =====
-- From a request for a push over the queue to the settlement of its payment (internal/queue/enqueuer.go and
-- internal/queue/worker.go).
use mkwanja_payment_service.Prelude.{ℕ, String, ◌≡◌, false, true, ◌∷◌, some}
use mkwanja_payment_service.Prelude.Int.{pos, eq_ℤ}
use mkwanja_payment_service.Prelude.Result.{ok}
use mkwanja_payment_service.Db.World.{World, Env}
use mkwanja_payment_service.Queue.Routing.{has_colon}
use mkwanja_payment_service.Queue.Worker.{StkCallback, extract_mpesa_receipt}
use mkwanja_payment_service.Queue.Tasks.{
  Broker, Tasks, Task, Decoder, stk_kind, enqueue_stk_webhook,
}
use mkwanja_payment_service.Queue.Push.{callback_payload, enqueue_stk_webhook-waits}
use mkwanja_payment_service.Http.Messages.{Request, InitiateStkPushBody}
use mkwanja_payment_service.Http.Site.{Site}
use mkwanja_payment_service.Http.Router.{ApiRoute, Route}
use mkwanja_payment_service.Server.Registry.{lookup}
use mkwanja_payment_service.Server.{Server, serve_request, work}
use mkwanja_payment_service.Server.Paid.{serve_request-IsPaid}
use mkwanja_payment_service.Server.Paid.Answer.{IsPushed}
use mkwanja_payment_service.Server.Paid.Worker.{IsPaid}

module _ (site : Site) (env env' : Env) (r : Request) (b : InitiateStkPushBody) (f : Server)
    (w : World) (id checkout_id : String) (broker : Broker) (d : Decoder) (q : Tasks)
    (path raw_body text : String) (cb : StkCallback) where
  -- A push over HTTP, for a consumer that has a database, was answered with a new payment, when no statement
  -- failed and with Redis; the consumer and the client have no colon. The body of a callback of success for its
  -- checkout id is given to the enqueuer, JSON writes it and reads it back, and the queue takes a task. Then
  -- that task stands first in the queue, and when the worker takes it and no statement fails, the payment is
  -- completed in the database of that consumer, with the receipt of the callback and the client and the amount
  -- of the request.
  pub enqueue_stk_webhook-IsPaid :
      lookup f.pools r.consumer_id ≡ some w
      → site.parser.stk_push r.body ≡ ok b
      → site.payments.has_redis ≡ true
      → has_colon r.consumer_id ≡ false
      → has_colon b.client_id ≡ false
      → ((n : ℕ) → env.fails n ≡ false)
      → let (answer, g) = serve_request site env (Route.api ApiRoute.initiate_stk_push) r f in
        IsPushed id checkout_id answer.body answer.replayed
        → broker.marshal_stk (callback_payload path raw_body) ≡ ok text
        → broker.takes q.tick (record { kind = stk_kind; payload = text }) ≡ ok tt
        → d.stk.payload text ≡ ok (callback_payload path raw_body)
        → d.stk.callback raw_body ≡ ok cb
        → cb.checkout_request_id ≡ checkout_id
        → eq_ℤ cb.result_code (pos 0) ≡ true
        → ((n : ℕ) → env'.fails n ≡ false)
        → (task : Task) × (w' : World) × ((enqueue_stk_webhook broker path raw_body q).1.waiting
            ≡ task ∷ q.waiting)
          × (lookup (work env' d task g).pools r.consumer_id ≡ some w')
          × IsPaid id b.client_id b.amount_cents (extract_mpesa_receipt cb.items) w'
  enqueue_stk_webhook-IsPaid known parses redis plain plain_client calm shown marshals takes
        reads_payload reads_callback about success calm' =
      let (w', here, done) =
        serve_request-IsPaid site env env' r b f w id checkout_id d text
          (callback_payload path raw_body) cb known parses redis plain plain_client calm shown
          reads_payload reads_callback about success calm' in
      (
        record { kind = stk_kind; payload = text },
        w',
        enqueue_stk_webhook-waits broker path raw_body text q marshals takes,
        here,
        done,
      )
