-- ===== src/Http/Webhooks.antt =====
-- internal/handler/webhook_handler.go and health_handler.go. An error of the queue is logged only.
use mkwanja_payment_service.Prelude.{
  ⊤, String, false, List, [], ◌∷◌, ◌++◌, none, some, ◌<>◌, if◌then◌else◌,
}
use mkwanja_payment_service.Prelude.Result.{Result, ok, err}
use mkwanja_payment_service.Http.Messages.{Request}
use mkwanja_payment_service.Http.Reply.{Body, Task, Reply, reply}
use mkwanja_payment_service.Http.Site.{Site}

-- A callback that the queue takes, if there is a queue.
abbrev pub queue_task : Site → Task → Reply
queue_task site task = record {
  status = 200;
  replayed = false;
  body = Body.state "ok";
  queued = if site.has_enqueuer then some task else none;
}

unfoldable pub handle_stk_callback : Site → String → Request → Reply
handle_stk_callback site consumer_id r = queue_task site (Task.stk consumer_id r.body)

unfoldable pub handle_b2c_callback : Site → String → Request → Reply
handle_b2c_callback site consumer_id r = queue_task site (Task.b2c consumer_id r.body)

unfoldable pub handle_b2b_callback : Site → String → Request → Reply
handle_b2b_callback site consumer_id r = queue_task site (Task.b2b consumer_id r.body)

abbrev pub handle_c2b_confirmation : Reply
handle_c2b_confirmation = reply 200 (Body.result 0 "Success")

abbrev pub handle_c2b_validation : Reply
handle_c2b_validation = reply 200 (Body.result 0 "Success")

abbrev pub liveness : Reply
liveness = reply 200 (Body.state "ok")

-- What a ping adds to the issues.
abbrev pub issue : Site → String → Result ⊤ → List (String × String)
issue site name (ok _) = []
issue site name (err e) = (name, site.describe e) ∷ []

abbrev pub db_issues : Site → List (String × Result ⊤) → List (String × String)
db_issues site [] = []
db_issues site (ping ∷ pings) = issue site ("db:" <> ping.0) ping.1 ++ db_issues site pings

unfoldable pub readiness : Site → Reply
readiness site = elim (issue site "redis" site.redis_ping ++ db_issues site site.db_pings) [
  | [] ↦ reply 200 (Body.state "ready")
  | i ∷ is ↦ reply 503 (Body.degraded (i ∷ is))
]
