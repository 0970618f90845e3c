-- ===== src/Server.antt =====
-- internal/db/registry.go and cmd/server/main.go: the whole process, with a database for each consumer and one
-- Redis.
pub mod Registry
pub mod Sound
pub mod Apart
pub mod Settles
pub mod Start
pub mod Paid
use mkwanja_payment_service.Prelude.{
  ⊤, String, Bool, List, ◌∷◌, [], Option, none, some, find, str_eq, ◌<>◌, if◌then◌else◌,
}
use mkwanja_payment_service.Prelude.Result.{Result, ok, err, msg}
use mkwanja_payment_service.Db.World.{World, Env}
use mkwanja_payment_service.Service.Initiate.StkPush.{routing_key}
use mkwanja_payment_service.Service.Initiate.Common.{or_default}
use mkwanja_payment_service.Service.Reconcile.{ReconciliationService, run_once}
use mkwanja_payment_service.Prelude.Split.{split_in_3}
use mkwanja_payment_service.Queue.Worker.{Json, Tenant}
use mkwanja_payment_service.Queue.Tasks.{Decoder, Task, process_task}
use mkwanja_payment_service.Http.Messages.{Request}
use mkwanja_payment_service.Http.Reply.{Reply}
use mkwanja_payment_service.Http.Site.{Site, Pool}
use mkwanja_payment_service.Http.Router.{Route, serve}
use mkwanja_payment_service.Server.Registry.{Pools, lookup, put, blank}

-- The routes in Redis stand here, and not in the databases.
pub record Server : Type 0 where
  pub redis : List (String × String)
  pub pools : Pools

-- A database as a call sees it, and what the call leaves.
abbrev pub view : Server → World → World
view f w = record w { routes = f.redis }

abbrev pub left : Server → String → World → World → Server
left f id w w' = record {
  redis = w'.routes;
  pools = put id (record w' { routes = w.routes }) f.pools;
}

-- The consumer whose database a request is about.
abbrev pub consumer_of : Route → Request → String
consumer_of (Route.paystack_webhook consumer_id) r = consumer_id
consumer_of route r = r.consumer_id

-- `registry.Get` for the handlers: of the consumer's database, which is the one that the handler is given.
abbrev pub with_pools : Site → Pools → Site
with_pools site pools = record site {
  pools = λ id. elim (lookup pools id) [ none ↦ Pool.missing | some w ↦ Pool.this ];
}

unfoldable pub serve_request : Site → Env → Route → Request → Server → Reply × Server
serve_request site env route r f = elim (lookup f.pools (consumer_of route r)) [
  | none ↦ ((serve (with_pools site f.pools) env route r blank).0, f)
  | some w ↦
      let (reply, w') = serve (with_pools site f.pools) env route r (view f w) in
      (reply, left f (consumer_of route r) w w')
]

-- The consumer that the worker finds for a callback: that of the route, or that of the payload.
abbrev pub consumer_in : String → List String → String
consumer_in fallback [] = ""
consumer_in fallback (id ∷ parts) = or_default id fallback

abbrev pub named_consumer : Json → String → List (String × String) → String
named_consumer json task routes = elim (json.payload task) [
  | err e ↦ ""
  | ok payload ↦ elim (json.callback payload.raw_body) [
    | err e ↦ ""
    | ok cb ↦
        elim (find (λ (r : String × String). str_eq r.0 (routing_key cb.checkout_request_id))
          routes) [
            | none ↦ ""
            | some route ↦ consumer_in payload.consumer_id (split_in_3 b':' route.1)
          ]
  ]
]

-- `registry.Get` for the worker.
abbrev pub tenant : Pools → String → Result Tenant
tenant pools id = elim (lookup pools id) [
  | none ↦ err (msg ("no db for consumer: " <> id))
  | some w ↦ ok Tenant.this
]

-- The worker takes a task. Without a database for its consumer it changes nothing.
unfoldable pub work : Env → Decoder → Task → Server → Server
work env d task f =
    let id = named_consumer d.stk task.payload f.redis in
    elim (lookup f.pools id) [
      | none ↦ f
      | some w ↦ left f id w (process_task env (tenant f.pools) d task (view f w)).1
    ]

-- The ticker: a cycle over the consumers.
unfoldable pub reconcile_tick : (String → Env) → ReconciliationService → Server → Server
reconcile_tick envs s f = record f { pools = run_once envs s f.pools }

-- What the process does once it has started.
pub data Event (f : Server) : Server → Type 0 where
  request :
      (site : Site) (env : Env) (route : Route) (r : Request)
      → Event f (serve_request site env route r f).1
  task : (env : Env) (d : Decoder) (t : Task) → Event f (work env d t f)
  tick : (envs : String → Env) (s : ReconciliationService) → Event f (reconcile_tick envs s f)

pub data Run (f : Server) : Server → Type 0 where
  here : Run f f
  next : {g h : Server} → Run f g → Event g h → Run f h
