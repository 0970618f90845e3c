-- ===== src/Queue/Tasks.antt =====
-- internal/queue/enqueuer.go and jobs.go, and the handlers that `NewWorker` of internal/queue/worker.go
-- registers. JSON and the queue of asynq are parameters.
use mkwanja_payment_service.Prelude.{⊤, ℕ, ◌+◌, String, List, ◌∷◌, ◌<>◌, str_eq, if◌then◌else◌}
use mkwanja_payment_service.Prelude.Result.{Result, ok, err, msg, wrap}
use mkwanja_payment_service.Db.World.{Env}
use mkwanja_payment_service.Db.Action.{Action, raise}
use mkwanja_payment_service.Queue.Worker.{
  Json, Tenant, StkWebhookPayload, B2cWebhookPayload, B2bWebhookPayload, handle_stk_webhook,
  handle_b2c_webhook, handle_b2b_webhook,
}

pub record Task : Type 0 where
  pub kind : String
  pub payload : String

-- `TypeProcessSTKWebhook`, `TypeProcessB2CWebhook` and `TypeProcessB2BWebhook`
abbrev pub stk_kind : String
stk_kind = "webhook:stk"

abbrev pub b2c_kind : String
b2c_kind = "webhook:b2c"

abbrev pub b2b_kind : String
b2b_kind = "webhook:b2b"

-- What the enqueuer takes from outside: json.Marshal, and whether asynq takes a task.
pub record Broker : Type 0 where
  pub marshal_stk : StkWebhookPayload → Result String
  pub marshal_b2c : B2cWebhookPayload → Result String
  pub marshal_b2b : B2bWebhookPayload → Result String
  pub takes : ℕ → Task → Result ⊤

-- How often the queue was called, and the tasks that it took, the last one first.
pub record Tasks : Type 0 where
  pub tick : ℕ
  pub waiting : List Task

abbrev taken : Task → Tasks → Result ⊤ → Result ⊤ × Tasks
taken task q (err e) = (err (wrap ("enqueue " <> task.kind) e), record q { tick = q.tick + 1 })
taken task q (ok _) = (ok tt, record q { tick = q.tick + 1; waiting = task ∷ q.waiting })

module _ (b : Broker) where
  unfoldable pub enqueue : String → Result String → Tasks → Result ⊤ × Tasks
  enqueue kind (err e) q = (err (wrap ("marshal " <> kind <> " payload") e), q)
  enqueue kind (ok payload) q =
      let task : Task = record { kind = kind; payload = payload } in
      taken task q (b.takes q.tick task)

  unfoldable pub enqueue_stk_webhook : String → String → Tasks → Result ⊤ × Tasks
  unfolding enqueue
  enqueue_stk_webhook consumer_id raw_body = enqueue stk_kind (
      b.marshal_stk
        (record { consumer_id = consumer_id; checkout_request_id = ""; raw_body = raw_body }))

  unfoldable pub enqueue_b2c_webhook : String → String → Tasks → Result ⊤ × Tasks
  unfolding enqueue
  enqueue_b2c_webhook consumer_id raw_body =
      enqueue b2c_kind (b.marshal_b2c (record { consumer_id = consumer_id; raw_body = raw_body }))

  unfoldable pub enqueue_b2b_webhook : String → String → Tasks → Result ⊤ × Tasks
  unfolding enqueue
  enqueue_b2b_webhook consumer_id raw_body =
      enqueue b2b_kind (b.marshal_b2b (record { consumer_id = consumer_id; raw_body = raw_body }))

-- What the worker takes from outside: json.Unmarshal into the types of the three tasks.
pub record Decoder : Type 0 where
  pub stk : Json
  pub b2c : String → Result B2cWebhookPayload
  pub b2b : String → Result B2bWebhookPayload

-- The handler that the multiplexer finds for a task of one of the three types; it has no other.
unfoldable pub process_task : Env → (String → Result Tenant) → Decoder → Task → Action ⊤
unfolding handle_stk_webhook handle_b2c_webhook handle_b2b_webhook
process_task env registry d task =
    if str_eq task.kind stk_kind
    then handle_stk_webhook env registry d.stk task.payload
    else if str_eq task.kind b2c_kind
    then handle_b2c_webhook d.b2c task.payload
    else if str_eq task.kind b2b_kind
    then handle_b2b_webhook d.b2b task.payload
    else raise (msg ("handler not found for task " <> task.kind))
