-- ===== src/Server/Paid/Worker.antt =====
-- The worker on a callback of success for a push (internal/queue/worker.go, internal/service/tenant_completer.go
-- and internal/db/registry.go).
use mkwanja_payment_service.Prelude.{
  ℕ, ◌+◌, String, ◌≡◌, refl, true, false, some, find, str_eq, eq_iff, is_empty, ap, ◌∙◌, sym, arith,
}
use mathlib.Core.Path.{subst}
use mkwanja_payment_service.Prelude.Int.{ℤ, pos, eq_ℤ}
use mkwanja_payment_service.Prelude.Result.{ok}
use mkwanja_payment_service.Db.Models.{Payment, completed, null_string}
use mkwanja_payment_service.Db.World.{World, Env}
use mkwanja_payment_service.Db.Action.{wrapped}
use mkwanja_payment_service.Db.Payments.{has_id}
use mkwanja_payment_service.Service.Initiate.StkPush.{routing_key, routing_value}
use mkwanja_payment_service.Service.Settle
use mkwanja_payment_service.Service.Settle.Outcome.{done}
use mkwanja_payment_service.Service.Settle.Twice.{complete_payment-row}
use mkwanja_payment_service.Queue.Routing.{has_colon, split_in_3-routing_value}
use mkwanja_payment_service.Queue.Worker.{StkCallback, StkWebhookPayload, extract_mpesa_receipt}
use mkwanja_payment_service.Queue.Tasks.{Task, Decoder, stk_kind, process_task}
use mkwanja_payment_service.Queue.Push.{process_task-stk}
use mkwanja_payment_service.Queue.Settles.{handle_stk_webhook-completes}
use mkwanja_payment_service.Server.Registry.{lookup, lookup-put}
use mkwanja_payment_service.Server.{Server, view, left, named_consumer, tenant, work}

-- A payment of this client and amount with this id is completed, with this receipt.
abbrev pub IsPaid : String → String → ℤ → String → World → Type 0
IsPaid id client_id cents receipt w =
    (p : Payment) × (find (has_id id) w.payments ≡ some p)
    × (p.status ≡ completed)
    × (p.client_id ≡ client_id)
    × (p.amount_cents ≡ cents)
    × (p.provider_receipt ≡ null_string receipt)

pub lookup-left :
    (f : Server) (id : String) (w w' : World)
    → lookup (left f id w w').pools id ≡ some (record w' { routes = w.routes })
lookup-left f id w w' =
    ground (arith, lookup-put id id (record w' { routes = w.routes }) f.pools, eq_iff id id)

-- The completion of a payment whose row is there.
completes-IsPaid :
    (env : Env) (w : World) (id client_id receipt tx context : String) (cents : ℤ)
    → ((n : ℕ) → env.fails n ≡ false)
    → ((p : Payment) × (find (has_id id) w.payments ≡ some p)
        × (p.client_id ≡ client_id)
        × (p.amount_cents ≡ cents))
    → IsPaid id client_id cents receipt
        (wrapped context (Settle.complete_payment env id receipt tx) w).1
unfolding wrapped
completes-IsPaid env w id client_id receipt tx context cents calm (p, found, client, amount) = (
  done env w id receipt tx p,
  complete_payment-row env w id receipt tx p found calm,
  refl,
  client,
  amount,
  refl,
)

-- The worker on a task of a consumer that has a database.
work-on :
    (env : Env) (d : Decoder) (t : Task) (f : Server) (id : String) (w : World)
    → named_consumer d.stk t.payload f.redis ≡ id
    → lookup f.pools id ≡ some w
    → work env d t f ≡ left f id w (process_task env (tenant f.pools) d t (view f w)).1
unfolding work
work-on env d t f id w named known =
    subst
      (λ i.
        lookup f.pools i ≡ some w
        → work env d t f ≡ left f i w (process_task env (tenant f.pools) d t (view f w)).1)
      named (λ here. rw (here, work) refl) known

-- The worker on a callback of success for a push, whose route and row are there.
module _ (env : Env) (d : Decoder) (text : String) (payload : StkWebhookPayload) (cb : StkCallback)
    (f : Server) (w v : World) (consumer_id client_id id : String) (cents : ℤ)
    (calm : (n : ℕ) → env.fails n ≡ false) (reads_payload : d.stk.payload text ≡ ok payload)
    (reads_callback : d.stk.callback payload.raw_body ≡ ok cb)
    (stored : find
        (λ (e : String × String). str_eq e.0 (routing_key cb.checkout_request_id))
        v.routes
      ≡ some (routing_key cb.checkout_request_id, routing_value consumer_id client_id id))
    (named : is_empty consumer_id ≡ false) (plain : has_colon consumer_id ≡ false)
    (plain_client : has_colon client_id ≡ false)
    (row : (p : Payment) × (find (has_id id) v.payments ≡ some p)
      × (p.client_id ≡ client_id)
      × (p.amount_cents ≡ cents)) where
  abbrev after_push : Server
  after_push = left f consumer_id w v

  named-push : named_consumer d.stk text v.routes ≡ consumer_id
  named-push =
      rw
        (
          reads_payload,
          named_consumer,
          reads_callback,
          stored,
          split_in_3-routing_value consumer_id client_id id plain plain_client,
          named,
        )
        refl

  abbrev kept : World
  kept = record v { routes = w.routes }

  there : lookup after_push.pools consumer_id ≡ some kept
  there = lookup-left f consumer_id w v

  abbrev paid : World
  paid =
      (process_task env (tenant after_push.pools) d (record { kind = stk_kind; payload = text })
        (view after_push kept)).1

  paid-IsPaid :
      eq_ℤ cb.result_code (pos 0) ≡ true
      → IsPaid id client_id cents (extract_mpesa_receipt cb.items) paid
  paid-IsPaid success =
      subst (λ out. IsPaid id client_id cents (extract_mpesa_receipt cb.items) out.1)
        (sym (
          process_task-stk env (tenant after_push.pools) d text v
          ∙ handle_stk_webhook-completes env (tenant after_push.pools) d.stk text v payload cb
              consumer_id client_id id reads_payload reads_callback (calm v.tick) stored named plain
              plain_client (rw (there, tenant) refl) success))
        (completes-IsPaid env (record v { tick = v.tick + 1 }) id client_id _ _ _ cents calm row)

  pub work-IsPaid :
      eq_ℤ cb.result_code (pos 0) ≡ true
      → (w' : World) × (lookup
            (work env d (record { kind = stk_kind; payload = text }) after_push).pools
            consumer_id
          ≡ some w')
        × IsPaid id client_id cents (extract_mpesa_receipt cb.items) w'
  work-IsPaid success = (
    record paid { routes = kept.routes },
    ap (λ (g : Server). lookup g.pools consumer_id)
          (work-on env d (record { kind = stk_kind; payload = text }) after_push consumer_id kept
            named-push there)
        ∙ lookup-left after_push consumer_id kept paid,
    paid-IsPaid success,
  )
