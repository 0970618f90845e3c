-- ===== src/Queue/Settles.antt =====
-- The callback of a push (internal/queue/worker.go) and the payment that the push made
-- (internal/service/payment_service.go).
use mkwanja_payment_service.Prelude.{
  ⊤, ◌+◌, String, ◌≡◌, true, false, List, [], ◌∷◌, some, find, str_eq, is_empty, ◌<>◌,
}
use mkwanja_payment_service.Prelude.Int.{pos, eq_ℤ}
use mkwanja_payment_service.Prelude.Result.{Result, ok}
use mkwanja_payment_service.Daraja.Messages.{Sent}
use mkwanja_payment_service.Db.World.{World, Env}
use mkwanja_payment_service.Db.Action.{Action, ◌>>=◌, query, wrapped}
use mkwanja_payment_service.Db.Keeps.{Keeps, Keeps-query, Keeps-lift, keeps_rules}
use mkwanja_payment_service.Service.Preserved.{IsPreserved}
use mkwanja_payment_service.Service.Settle
use mkwanja_payment_service.Service.Steps.{complete-Keeps, fail-Keeps}
use mkwanja_payment_service.Service.Initiate.Common.{or_default}
use mkwanja_payment_service.Service.Initiate.StkPush.{routing_key, routing_value}
use mkwanja_payment_service.Queue.Routing.{has_colon, split_in_3-routing_value}
use mkwanja_payment_service.Queue.Worker
use mkwanja_payment_service.Queue.Worker.{
  Json, Tenant, this, another, StkCallback, StkWebhookPayload, extract_mpesa_receipt, get_route,
  on_tenant, settle, follow, handle_stk_webhook,
}

module _ {P : World → Type 0} {Allowed : Sent → Type 0} (inv : IsPreserved P Allowed) (env : Env)
    (registry : String → Result Tenant) where
  on_tenant-Keeps : (t : Tenant) (m : Action ⊤) → Keeps P m → Keeps P (on_tenant env registry t m)
  unfolding on_tenant
  on_tenant-Keeps this m k = k
  on_tenant-Keeps (another r) m k = Keeps-lift r

  settle-Keeps :
      (cb : StkCallback) (consumer_id id : String) → Keeps P (settle env registry cb consumer_id id)
  unfolding settle Worker.complete_payment Worker.fail_payment
  settle-Keeps cb consumer_id id =
      search (keeps_rules, on_tenant-Keeps, complete-Keeps inv env, fail-Keeps inv env) depth 7

  follow-Keeps :
      (payload : StkWebhookPayload) (cb : StkCallback) (route : String) (parts : List String)
      → Keeps P (follow env registry payload cb route parts)
  unfolding follow
  follow-Keeps payload cb route [] = search keeps_rules
  follow-Keeps payload cb route (a ∷ []) = search keeps_rules
  follow-Keeps payload cb route (a ∷ b ∷ []) = search keeps_rules
  follow-Keeps payload cb route (a ∷ b ∷ c ∷ rest) =
      settle-Keeps cb (or_default a payload.consumer_id) c

  get_route-Keeps : (key : String) → Keeps P (get_route env key)
  unfolding get_route
  get_route-Keeps key = Keeps-query env _ inv.timeless

  pub handle_stk_webhook-Keeps :
      (json : Json) (task : String) → Keeps P (handle_stk_webhook env registry json task)
  unfolding handle_stk_webhook
  handle_stk_webhook-Keeps json task = search (keeps_rules, get_route-Keeps, follow-Keeps) depth 9

-- A callback of a push whose route is on record: it parses, the lookup does not fail, and the route is
-- the one that the push stored, for a consumer with this database.
module _ (env : Env) (registry : String → Result Tenant) (json : Json) (task : String) (w : World)
    (payload : StkWebhookPayload) (cb : StkCallback) (consumer_id client_id payment_id : String)
    (parses : json.payload task ≡ ok payload) (reads : json.callback payload.raw_body ≡ ok cb)
    (up : env.fails w.tick ≡ false)
    (stored : find
        (λ (r : String × String). str_eq r.0 (routing_key cb.checkout_request_id))
        w.routes
      ≡ some (routing_key cb.checkout_request_id, routing_value consumer_id client_id payment_id))
    (named : is_empty consumer_id ≡ false) (plain : has_colon consumer_id ≡ false)
    (plain_client : has_colon client_id ≡ false) (ours : registry consumer_id ≡ ok this) where
  follows :
      handle_stk_webhook env registry json task w
      ≡ settle env registry cb consumer_id payment_id (record w { tick = w.tick + 1 })
  unfolding handle_stk_webhook follow ◌>>=◌ get_route query
  follows = simp (
    parses,
    reads,
    up,
    stored,
    split_in_3-routing_value consumer_id client_id payment_id plain plain_client,
    named,
  )

  -- A callback that reports success, with its route on record: the payment that the push made is
  -- completed with the receipt of the callback, and with the checkout id as the provider's id.
  pub handle_stk_webhook-completes :
      eq_ℤ cb.result_code (pos 0) ≡ true
      → handle_stk_webhook env registry json task w
        ≡ wrapped
            ("complete payment " <> payment_id)
            (Settle.complete_payment env payment_id
              (extract_mpesa_receipt cb.items)
              cb.checkout_request_id)
            (record w { tick = w.tick + 1 })
  unfolding settle Worker.complete_payment on_tenant ◌>>=◌
  handle_stk_webhook-completes success = rw (follows) (simp (success, ours))

  -- A callback that reports a failure, with its route on record: the payment that the push made is
  -- failed, with the description of the callback as the reason.
  pub handle_stk_webhook-fails :
      eq_ℤ cb.result_code (pos 0) ≡ false
      → handle_stk_webhook env registry json task w
        ≡ wrapped
            ("fail payment " <> payment_id)
            (Settle.fail_payment env payment_id cb.result_desc)
            (record w { tick = w.tick + 1 })
  unfolding settle Worker.fail_payment on_tenant ◌>>=◌
  handle_stk_webhook-fails failure = rw (follows) (simp (failure, ours))
