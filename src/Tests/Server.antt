-- ===== src/Tests/Server.antt =====
-- The theorems about the whole process, at concrete inputs.
use mkwanja_payment_service.Prelude.{
  ℕ, zero, suc, String, ◌≡◌, refl, true, List, [], ◌∷◌, some, str_eq, All, ◌⊎◌, inr, if◌then◌else◌,
}
use mathlib.Core.Path.{subst}
use mkwanja_payment_service.Prelude.Result.{ok, ok_inj}
use mkwanja_payment_service.Crypto.{parse_hex_key}
use mkwanja_payment_service.Prelude.Split.{split_in_3}
use mkwanja_payment_service.Config
use mkwanja_payment_service.Config.{Surroundings, ConsumerConfig, new_consumer_registry}
use mkwanja_payment_service.Db.World.{World, Env}
use mkwanja_payment_service.Http.Router.{ApiRoute, Route}
use mkwanja_payment_service.Server.Registry.{lookup, register, get}
use mkwanja_payment_service.Server.{
  view, with_pools, Server, Event, Run, serve_request, reconcile_tick,
}
use mkwanja_payment_service.Server.Sound.{IsSound}
use mkwanja_payment_service.Server.Apart
use mkwanja_payment_service.Server.Settles
use mkwanja_payment_service.Server.Settles.{AreSettled}
use mkwanja_payment_service.Server.Start.{
  Machine, Started, start, start_with, register_all, register_consumer, seed_operator,
}
use mkwanja_payment_service.Server.Start.Wiring
use mkwanja_payment_service.Server.Start.Wiring.{Libraries, setup, behind}
use mkwanja_payment_service.Http.Site.{Site}
use mkwanja_payment_service.Server.Start.Sound as Process
use mkwanja_payment_service.Tests.Data.{calm, plain, fresh, busy}
use mkwanja_payment_service.Tests.SiteData.{
  site, request, late, knowing, paystack_api, signing, paid_event, knowing_reconciliation,
  first_payment-IsAnswered,
}

-- Two consumers, each with its database.
abbrev server : Server
server = record { redis = []; pools = ("shopify", fresh) ∷ ("books", fresh) ∷ [] }

abbrev pushed : Server
pushed = (serve_request site calm (Route.api ApiRoute.initiate_stk_push) (request "open") server).1

serve_request-IsApart_example :
    (pushed ≡ server)
    ⊎ ((Config.validate site.os site.consumers "shopify" "open" ≡ true)
        × (lookup pushed.pools "books" ≡ lookup server.pools "books"))
serve_request-IsApart_example =
    Apart.serve_request-IsApart site calm ApiRoute.initiate_stk_push (request "open") server "books"
      refl

-- A database with a due payment that the provider knows.
abbrev waiting : Server
waiting = record { redis = []; pools = ("shopify", busy) ∷ [] }

abbrev lates : String → Env
lates id = late

reconcile_tick-settles_example :
    AreSettled lates knowing_reconciliation
      (λ p. true)
      waiting.pools
      (reconcile_tick lates knowing_reconciliation waiting).pools
reconcile_tick-settles_example =
    Settles.reconcile_tick-settles lates knowing_reconciliation (λ p. true) (λ id n. refl) waiting
      ((inr first_payment-IsAnswered, tt), tt)

abbrev zeros : ℕ → List ℕ
zeros zero = []
zeros (suc n) = 0 ∷ zeros n

abbrev shop_config : ConsumerConfig
shop_config = record {
  id = "shopify";
  secret_hash = "set";
  callback_url = "set";
  database_url = "set";
}

-- Two variables of a consumer, a key of 32 bytes, and a database that answers.
abbrev consumer_variables : String → String
consumer_variables name =
    if str_eq name "CONSUMER_SHOP_ID"
    then "shopify"
    else if str_eq name "OPERATOR_CLIENT_ID"
    then ""
    else "set"

abbrev machine : Machine
machine = record {
  os = record {
    environ = "CONSUMER_SHOP_ID=shopify" ∷ "CONSUMER_SHOP_SECRET=set" ∷ [];
    getenv = consumer_variables;
    generate = λ secret. ok secret;
    compare = λ hash secret. str_eq hash secret;
  };
  env = record calm { crypto = record plain { hex_decode = λ text. some (zeros 32) } };
  redis_address = λ url. ok url;
  dialer = record { connect = λ url. ok fresh; ping = λ url. ok tt };
  migrate = λ w. ok w;
  worker = ok tt;
}

abbrev began : Started
began = record {
  config = record {
    port = "set";
    environment = "set";
    redis_url = "set";
    credential_encryption_key = "set";
    daraja_base_url = "set";
    daraja_callback_url = "set";
    paystack_base_url = "set";
    operator_client_id = "";
    operator_consumer_id = "set";
    operator_client_name = "set";
    consumers = shop_config ∷ [];
  };
  encrypt_key = zeros 32;
  consumers = new_consumer_registry (shop_config ∷ []);
}

starts : (start machine).0 ≡ ok began
unfolding start start_with register_all register_consumer register get seed_operator parse_hex_key
    Config.load split_in_3
starts = refl

abbrev libraries : Libraries
libraries = record {
  parser = site.parser;
  describe = site.describe;
  is_uuid = site.is_uuid;
  new_daraja_client = λ base_url key secret shortcode passkey. knowing;
  new_paystack_client = λ base_url key. paystack_api;
  signing = signing;
  parse_event = λ body. ok paid_event;
  redis_ping = ok tt;
  db_ping = λ id. ok tt;
}

start-answers_example :
    let f : Server = record { redis = []; pools = (start machine).1 } in
    let here : Site = setup libraries machine.os began (start machine).1 in
    (w : World) × (lookup (start machine).1 "shopify" ≡ some w)
    × ((serve_request here calm (Route.api ApiRoute.list_clients) (request "set") f).0
        ≡ (behind
            (with_pools here (start machine).1)
            calm
            ApiRoute.list_clients
            (request "set")
            "shopify"
            (view f w)).0)
unfolding Config.validate new_consumer_registry
start-answers_example =
    Wiring.start-answers machine libraries began calm ApiRoute.list_clients (request "set") []
      starts refl refl refl

fresh-IsSound : (url : String) (w : World) → ok fresh ≡ ok w → IsSound w
fresh-IsSound url w e =
    subst IsSound (ok_inj fresh w e) (record { table = tt; balanced = λ q. refl; backed = tt })

-- The process has started, and serves a request.
abbrev running : Server
running = record { redis = []; pools = (start machine).1 }

process-IsSound_example :
    All
      (λ e. IsSound e.1)
      (serve_request site calm
        (Route.api ApiRoute.initiate_stk_push)
        (request "open")
        running).1.pools
process-IsSound_example =
    Process.process-IsSound machine fresh-IsSound (λ w v h e. subst IsSound (ok_inj w v e) h) []
      (serve_request site calm (Route.api ApiRoute.initiate_stk_push) (request "open") running).1
      (Run.next Run.here
        (Event.request site calm (Route.api ApiRoute.initiate_stk_push) (request "open")))
