-- ===== src/Server/Start/Wiring.antt =====
-- How cmd/server/main.go and the adapters of internal/router/router.go make the services of a request.
use mkwanja_payment_service.Prelude.{
  ⊤, ℕ, String, ◌≡◌, refl, Bool, true, false, List, none, some, is_empty, ap,
}
use mkwanja_payment_service.Prelude.Result.{Result, Error, ok}
use mkwanja_payment_service.Daraja.Messages.{DarajaClient}
use mkwanja_payment_service.Paystack.Messages.{PaystackApi, Signing, WebhookEvent}
use mkwanja_payment_service.Config
use mkwanja_payment_service.Config.{Surroundings}
use mkwanja_payment_service.Db.World.{World, Env}
use mkwanja_payment_service.Service.Requests.{PaymentService}
use mkwanja_payment_service.Service.Paystack.{PaystackService}
use mkwanja_payment_service.Service.Reconcile.{ReconciliationService}
use mkwanja_payment_service.Http.Messages.{Parser, Request}
use mkwanja_payment_service.Http.Reply.{Handler}
use mkwanja_payment_service.Http.Site.{Site, Pool}
use mkwanja_payment_service.Http.Router.{ApiRoute, Route, consumer, keyed, endpoint, serve}
use mkwanja_payment_service.Server.Registry.{Pools, lookup, ping_all}
use mkwanja_payment_service.Server.{Server, view, with_pools, serve_request}
use mkwanja_payment_service.Server.Start.{Machine, Started, start}
use mkwanja_payment_service.Server.Start.Known.{start-serves}

-- What the handlers take from libraries, and the constructors of the providers' clients, which need a base URL.
pub record Libraries : Type 0 where
  pub parser : Parser
  pub describe : Error → String
  pub is_uuid : String → Bool
  pub new_daraja_client : String → String → String → String → String → DarajaClient
  pub new_paystack_client : String → String → PaystackApi
  pub signing : Signing
  pub parse_event : List ℕ → Result WebhookEvent
  pub redis_ping : Result ⊤
  pub db_ping : String → Result ⊤

module _ (lib : Libraries) where
  abbrev pub new_payment_service : List ℕ → String → String → PaymentService
  new_payment_service encrypt_key base_url callback_url = record {
    encrypt_key = encrypt_key;
    callback_url = callback_url;
    has_redis = true;
    build_client = lib.new_daraja_client base_url;
  }

  abbrev pub new_paystack_service : List ℕ → String → PaystackService
  new_paystack_service encrypt_key base_url = record {
    encrypt_key = encrypt_key;
    build_client = lib.new_paystack_client base_url;
    signing = lib.signing;
    parse = lib.parse_event;
  }

  abbrev pub new_reconciliation_service : List ℕ → String → String → ReconciliationService
  new_reconciliation_service encrypt_key base_url callback_url = record {
    encrypt_key = encrypt_key;
    callback_url = callback_url;
    build_client = lib.new_daraja_client base_url;
  }

  -- The reconciler of the ticker.
  abbrev pub reconciler : Started → ReconciliationService
  reconciler st =
      new_reconciliation_service st.encrypt_key st.config.daraja_base_url
        st.config.daraja_callback_url

  -- `router.Setup` with the `Dependencies` that main hands to it.
  abbrev pub setup : Surroundings → Started → Pools → Site
  setup os st pools = record {
    os = os;
    consumers = st.consumers;
    pools = λ id. elim (lookup pools id) [ none ↦ Pool.missing | some w ↦ Pool.this ];
    parser = lib.parser;
    describe = lib.describe;
    is_uuid = lib.is_uuid;
    payments =
        new_payment_service st.encrypt_key st.config.daraja_base_url st.config.daraja_callback_url;
    paystack = new_paystack_service st.encrypt_key st.config.paystack_base_url;
    encrypt_key = st.encrypt_key;
    operator_client_id = st.config.operator_client_id;
    has_enqueuer = true;
    redis_ping = lib.redis_ping;
    db_pings = ping_all lib.db_ping pools;
  }

-- What the handler of a route does behind the check of the consumer.
abbrev pub behind : Site → Env → ApiRoute → Request → String → Handler
behind site env route r consumer_id =
    keyed site env route r (λ key.
      endpoint site env route (record { consumer_id = consumer_id; idempotency_key = key }) r)

consumer-passes :
    (site : Site) (env : Env) (r : Request) (next : String → Handler)
    → is_empty r.consumer_id ≡ false
    → is_empty r.service_secret ≡ false
    → Config.validate site.os site.consumers r.consumer_id r.service_secret ≡ true
    → site.pools r.consumer_id ≡ Pool.this
    → consumer site env r next ≡ next r.consumer_id
unfolding consumer
consumer-passes site env r next named secret valid ours = simp (named, secret, valid, ours)

module _ (m : Machine) (lib : Libraries) (st : Started) (env : Env) (route : ApiRoute) (r : Request)
    (keys : List (String × String)) where
  abbrev server : Server
  server = record { redis = keys; pools = (start m).1 }

  abbrev site : Site
  site = with_pools (setup lib m.os st (start m).1) (start m).1

  -- After a start that succeeded, with the services that main makes from it, a request to /v1 with the right
  -- secret of its consumer is answered by what stands behind the check of the consumer, on the database of that
  -- consumer.
  pub start-answers :
      (start m).0 ≡ ok st
      → is_empty r.consumer_id ≡ false
      → is_empty r.service_secret ≡ false
      → Config.validate m.os st.consumers r.consumer_id r.service_secret ≡ true
      → (w : World) × (lookup (start m).1 r.consumer_id ≡ some w)
        × ((serve_request (setup lib m.os st (start m).1) env (Route.api route) r server).0
            ≡ (behind site env route r r.consumer_id (view server w)).0)
  unfolding serve_request serve consumer
  start-answers began named secret valid =
      let (w, found) = start-serves m r.consumer_id st r.service_secret began valid in
      (
        w,
        found,
        rw (found, serve_request)
            (ap (λ (h : Handler). (h (view server w)).0)
              (consumer-passes site env r (behind site env route r) named secret valid
                (rw (found, with_pools) refl))),
      )
