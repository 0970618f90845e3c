-- ===== src/Queue/Push.antt =====
-- From a push to the settlement of its payment: `InitiateSTKPush` of internal/service/payment_service.go, the
-- callback that internal/handler/webhook_handler.go queues, and the worker of internal/queue/worker.go.
use mkwanja_payment_service.Prelude.{
  ℕ, String, ◌≡◌, refl, true, false, List, ◌∷◌, some, inl, inr, find, str_eq, eq_iff, is_empty,
  arith,
}
use mkwanja_payment_service.Prelude.Result.{Result, ok}
use mkwanja_payment_service.Db.World.{World, Env}
use mkwanja_payment_service.Service.Requests.{
  PaymentService, InitiateStkPushRequest, InitiateStkPushResult,
}
use mkwanja_payment_service.Service.Initiate.StkPush.{routing_key, routing_value, initiate_stk_push}
use mkwanja_payment_service.Service.Initiate.Routed.{initiate_stk_push-IsRouted}
use mkwanja_payment_service.Queue.Routing.{has_colon}
use mkwanja_payment_service.Queue.Worker.{Tenant, StkWebhookPayload, handle_stk_webhook}
use mkwanja_payment_service.Queue.Tasks.{
  Broker, Tasks, Decoder, stk_kind, enqueue, enqueue_stk_webhook, process_task,
}

-- The payload that the handler of a callback makes.
abbrev pub callback_payload : String → String → StkWebhookPayload
callback_payload consumer_id raw_body = record {
  consumer_id = consumer_id;
  checkout_request_id = "";
  raw_body = raw_body;
}

routed-found :
    (key value : String) (rest routes : List (String × String))
    → routes ≡ (key, value) ∷ rest
    → find (λ (r : String × String). str_eq r.0 key) routes ≡ some (key, value)
routed-found key value rest routes stored = rw (stored, (eq_iff key key).1 refl) refl

pub enqueue_stk_webhook-waits :
    (b : Broker) (consumer_id raw_body text : String) (q : Tasks)
    → b.marshal_stk (callback_payload consumer_id raw_body) ≡ ok text
    → b.takes q.tick (record { kind = stk_kind; payload = text }) ≡ ok tt
    → (enqueue_stk_webhook b consumer_id raw_body q).1.waiting
      ≡ record { kind = stk_kind; payload = text } ∷ q.waiting
unfolding enqueue_stk_webhook enqueue
enqueue_stk_webhook-waits b consumer_id raw_body text q marshals takes = simp (marshals, takes)

pub process_task-stk :
    (env : Env) (registry : String → Result Tenant) (d : Decoder) (text : String) (w : World)
    → process_task env registry d (record { kind = stk_kind; payload = text }) w
      ≡ handle_stk_webhook env registry d.stk text w
unfolding process_task
process_task-stk env registry d text w = refl

-- A new push returned `r`, and the provider reports its success.
module _ (env : Env) (s : PaymentService) (req : InitiateStkPushRequest)
    (calm : (n : ℕ) → env.fails n ≡ false) (redis : s.has_redis ≡ true)
    (named : is_empty req.consumer_id ≡ false) (plain : has_colon req.consumer_id ≡ false)
    (plain_client : has_colon req.client_id ≡ false) (w : World) (r : InitiateStkPushResult)
    (made : (initiate_stk_push env s req w).0 ≡ ok r) (new : r.idempotency_replayed ≡ false) where
  abbrev pub pushed : World
  pushed = (initiate_stk_push env s req w).1

  pub pushed-found :
      find (λ (e : String × String). str_eq e.0 (routing_key r.checkout_request_id)) pushed.routes
      ≡ some (
        routing_key r.checkout_request_id,
        routing_value req.consumer_id req.client_id r.payment_id,
      )
  pushed-found = elim (initiate_stk_push-IsRouted env s req calm redis w r made) [
    | inl replayed ↦ ground (arith, replayed, new)
    | inr (rest, stored) ↦ routed-found _ _ rest pushed.routes stored
  ]
