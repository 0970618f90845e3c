-- ===== src/Server/Sound.antt =====
-- What holds of every database, whatever the process does (cmd/server/main.go).
use mkwanja_payment_service.Prelude.{
  ℕ, String, true, ◌≡◌, List, ◌∷◌, [], some, All, inl, inr, Option-cases, arith,
}
use mathlib.Core.Path.{subst, sym}
use mkwanja_payment_service.Db.World.{World, Env}
use mkwanja_payment_service.Db.Action.{pure, raise, lift, ◌>>=◌}
use mkwanja_payment_service.Prelude.Result.{Result, err, msg}
use mkwanja_payment_service.Db.Payments.Table.{IsTable}
use mkwanja_payment_service.Db.Journal.Balance.{IsBalanced}
use mkwanja_payment_service.Service.Requests.{PaymentService}
use mkwanja_payment_service.Service.Reconcile.{ReconciliationService, reconcile_consumer, run_once}
use mkwanja_payment_service.Service.Reach.{Reach, Step, Reach-IsTable, Reach-IsBalanced}
use mkwanja_payment_service.Service.Reach.Backed.{IsBacked, Reach-IsBacked}
use mkwanja_payment_service.Queue.Worker.{
  Tenant, handle_stk_webhook, handle_b2c_webhook, handle_b2b_webhook,
}
use mkwanja_payment_service.Queue.Tasks.{Decoder, Task, process_task}
use mkwanja_payment_service.Http.Messages.{Request}
use mkwanja_payment_service.Http.Site.{Site}
use mkwanja_payment_service.Http.Router.{Route, serve}
use mkwanja_payment_service.Http.Router.Steps.{serve-IsStep}
use mkwanja_payment_service.Server.Registry.{Pools, lookup, All-lookup, All-put}
use mkwanja_payment_service.Server.{
  Server, Event, Run, view, left, consumer_of, with_pools, serve_request, named_consumer, tenant,
  work, reconcile_tick,
}

-- A property of a database that every operation keeps, and that does not look at Redis.
pub record IsLasting (P : World → Type 0) : Type 0 where
  pub steps : {env : Env} {s : PaymentService} {w v : World} → Step env s w v → P w → P v
  timeless : (w : World) (n : ℕ) → P w → P (record w { tick = n })
  routeless : (w : World) (routes : List (String × String)) → P w → P (record w { routes = routes })

module _ {P : World → Type 0} (lasts : IsLasting P) where
  abbrev Everywhere : Pools → Type 0
  Everywhere pools = All (λ e. P e.1) pools

  left-keeps :
      (f : Server) (id : String) (w w' : World)
      → Everywhere f.pools
      → P w'
      → Everywhere (left f id w w').pools
  left-keeps f id w w' hs h =
      All-put P id (record w' { routes = w.routes }) f.pools hs (lasts.routeless w' w.routes h)

  view-keeps :
      (f : Server) (id : String) (w : World)
      → Everywhere f.pools
      → lookup f.pools id ≡ some w
      → P (view f w)
  view-keeps f id w hs found = lasts.routeless w f.redis (All-lookup P id w f.pools hs found)

  serve-keeps :
      (site : Site) (env : Env) (route : Route) (r : Request) (w : World)
      → P w
      → P (serve site env route r w).1
  serve-keeps site env route r w h = elim (serve-IsStep site env w route r) [
    | inl idle ↦ subst P (sym idle) (lasts.timeless w (serve site env route r w).1.tick h)
    | inr step ↦ lasts.steps step h
  ]

  process_task-keeps :
      (env : Env) (registry : String → Result Tenant) (s : PaymentService) (d : Decoder) (t : Task)
      (w : World)
      → P w
      → P (process_task env registry d t w).1
  unfolding process_task handle_b2c_webhook handle_b2b_webhook ◌>>=◌ lift pure raise
  process_task-keeps env registry s d t w h =
      let step : Step env s w (handle_stk_webhook env registry d.stk t.payload w).1 =
        Step.webhook registry d.stk t.payload in
      let settled = lasts.steps step h in ground (arith, h, settled)

  run_once-keeps :
      (envs : String → Env) (s : ReconciliationService) (p : PaymentService) (pools : Pools)
      → Everywhere pools
      → Everywhere (run_once envs s pools)
  unfolding run_once
  run_once-keeps envs s p [] hs = tt
  run_once-keeps envs s p (e ∷ es) (h, hs) =
      let step : Step (envs e.0) p e.1 (reconcile_consumer (envs e.0) s e.0 e.1).1 =
        Step.reconcile s e.0 in
      (lasts.steps step h, run_once-keeps envs s p es hs)

  serve_request-keeps :
      (site : Site) (env : Env) (route : Route) (r : Request) (f : Server)
      → Everywhere f.pools
      → Everywhere (serve_request site env route r f).1.pools
  unfolding serve_request
  serve_request-keeps site env route r f hs =
      elim (Option-cases (lookup f.pools (consumer_of route r))) [
        | inl missing ↦ rw (missing, serve_request) hs
        | inr (w, found) ↦
            rw (found, serve_request)
              (left-keeps f (consumer_of route r) w _ hs (
                serve-keeps (with_pools site f.pools) env route r (view f w)
                  (view-keeps f (consumer_of route r) w hs found)))
      ]

  work-keeps :
      (p : PaymentService) (env : Env) (d : Decoder) (t : Task) (f : Server)
      → Everywhere f.pools
      → Everywhere (work env d t f).pools
  unfolding work
  work-keeps p env d t f hs =
      let id = named_consumer d.stk t.payload f.redis in
      elim (Option-cases (lookup f.pools id)) [
        | inl missing ↦ rw (missing, work) hs
        | inr (w, found) ↦
            rw (found, work)
              (left-keeps f id w _ hs (
                process_task-keeps env (tenant f.pools) p d t (view f w)
                  (view-keeps f id w hs found)))
      ]

  Event-keeps :
      (p : PaymentService) {f g : Server} → Event f g → Everywhere f.pools → Everywhere g.pools
  unfolding reconcile_tick
  Event-keeps p {f} (Event.request site env route r) hs = serve_request-keeps site env route r f hs
  Event-keeps p {f} (Event.task env d t) hs = work-keeps p env d t f hs
  Event-keeps p {f} (Event.tick envs s) hs = run_once-keeps envs s p f.pools hs

  Run-keeps :
      (p : PaymentService) {f g : Server} → Run f g → Everywhere f.pools → Everywhere g.pools
  Run-keeps p Run.here hs = hs
  Run-keeps p (Run.next r e) hs = Event-keeps p e (Run-keeps p r hs)

-- The payments are well formed, the journal balances, and every request to pay is backed by a payment.
pub record IsSound (w : World) : Type 0 where
  pub table : IsTable w.payments
  pub balanced : IsBalanced w.journal
  pub backed : IsBacked w

pub IsSound-IsLasting : IsLasting IsSound
IsSound-IsLasting = record {
  steps = λ {env} {s} {w} {v} step h. record {
    table = Reach-IsTable h.table (Reach.next env s Reach.here step);
    balanced = Reach-IsBalanced h.balanced (Reach.next env s Reach.here step);
    backed = Reach-IsBacked h.backed (Reach.next env s Reach.here step);
  };
  timeless = λ w n h. record { table = h.table; balanced = h.balanced; backed = h.backed };
  routeless = λ w routes h. record { table = h.table; balanced = h.balanced; backed = h.backed };
}

-- The steps of a worker and of a cycle are steps beside any payment service.
abbrev pub some_service : PaymentService
some_service = record {
  encrypt_key = [];
  callback_url = "";
  has_redis = true;
  build_client = λ key secret shortcode passkey. record {
    initiate_stk_push = λ n request. err (msg "");
    initiate_b2c = λ n request. err (msg "");
    initiate_b2b = λ n request. err (msg "");
    query_transaction_status = λ n request. err (msg "");
  };
}

-- Whatever requests over HTTP, tasks of the queue and reconciliation ticks the process takes, in whatever
-- order and whichever statements fail: if the database of every consumer is sound at first (each payment has a
-- positive amount, an id of its own and a key of its own within its client, the journal balances, every
-- request to pay is backed by a payment), then it is sound afterwards.
pub Run-IsSound :
    (f g : Server) → All (λ e. IsSound e.1) f.pools → Run f g → All (λ e. IsSound e.1) g.pools
Run-IsSound f g hs r = Run-keeps IsSound-IsLasting some_service r hs
