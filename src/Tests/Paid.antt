-- ===== src/Tests/Paid.antt =====
-- The theorem about a payment from its request to its settlement, at a concrete input.
use mkwanja_payment_service.Prelude.{◌≡◌, refl, [], ◌∷◌, some}
use mkwanja_payment_service.Prelude.Int.{pos}
use mkwanja_payment_service.Db.World.{World}
use mkwanja_payment_service.Db.Action.{◌>>=◌, query}
use mkwanja_payment_service.Db.Payments
use mkwanja_payment_service.Db.Clients
use mkwanja_payment_service.Repository.PaymentRepo
use mkwanja_payment_service.Repository.ClientRepo
use mkwanja_payment_service.Config
use mkwanja_payment_service.Crypto.{decrypt}
use mkwanja_payment_service.Domain.Phone.{normalise_phone}
use mkwanja_payment_service.Service.Requests.{validate_stk_push}
use mkwanja_payment_service.Service.Initiate.Common.{or_fail, daraja_client, call, store_route}
use mkwanja_payment_service.Service.Initiate.StkPush
use mkwanja_payment_service.Queue.Worker.{extract_mpesa_receipt}
use mkwanja_payment_service.Queue.Tasks.{Broker, Tasks, Task, stk_kind, enqueue_stk_webhook}
use mkwanja_payment_service.Http.Payments as Handlers
use mkwanja_payment_service.Http.Router.{
  ApiRoute, Route, serve, consumer, keyed, idempotency, endpoint,
}
use mkwanja_payment_service.Server.Registry.{lookup}
use mkwanja_payment_service.Server.{Server, serve_request, work}
use mkwanja_payment_service.Prelude.Result.{ok, err, msg}
use mkwanja_payment_service.Server.Paid
use mkwanja_payment_service.Server.Paid.Queued
use mkwanja_payment_service.Server.Paid.Worker.{IsPaid}
use mkwanja_payment_service.Server.Paid.Answer.{IsPushed}
use mkwanja_payment_service.Tests.Data.{calm, fresh}
use mkwanja_payment_service.Tests.CallbackData.{callback, arrived, decoder}
use mkwanja_payment_service.Tests.SiteData.{site, request, push_body}

-- Two consumers, each with its database.
abbrev server : Server
server = record { redis = []; pools = ("shopify", fresh) ∷ ("books", fresh) ∷ [] }

push_is_shown :
    let (answer, g) =
      serve_request site calm (Route.api ApiRoute.initiate_stk_push) (request "open") server in
    IsPushed "p2" "ws_1" answer.body answer.replayed
unfolding serve_request serve consumer keyed idempotency endpoint Config.validate
    Handlers.initiate_stk_push StkPush.initiate_stk_push ◌>>=◌ validate_stk_push normalise_phone
    query PaymentRepo.get_payment_by_idempotency_key Payments.get_payment_by_idempotency_key
    PaymentRepo.create_payment Payments.create_payment or_fail ClientRepo.get_active_credentials
    Clients.get_active_credentials daraja_client decrypt call store_route
    PaymentRepo.update_provider_request_id Payments.update_provider_request_id
    Config.new_consumer_registry
push_is_shown = ("pending", refl, refl)

serve_request-IsPaid_example :
    (w : World) × (lookup
        (work calm decoder
          (record { kind = stk_kind; payload = "task" })
          (serve_request site calm
            (Route.api ApiRoute.initiate_stk_push)
            (request "open")
            server).1).pools
        "shopify"
      ≡ some w)
    × IsPaid "p2" "c1" (pos 15000) "RCP1" w
unfolding extract_mpesa_receipt
serve_request-IsPaid_example =
    Paid.serve_request-IsPaid site calm calm (request "open") push_body server fresh "p2" "ws_1"
      decoder "task" arrived (callback (pos 0)) refl refl refl refl refl (λ n. refl) push_is_shown
      refl refl refl refl (λ n. refl)

-- A queue that takes every task, and JSON of one callback.
abbrev broker : Broker
broker = record {
  marshal_stk = λ p. ok "task";
  marshal_b2c = λ p. err (msg "no JSON");
  marshal_b2b = λ p. err (msg "no JSON");
  takes = λ n t. ok tt;
}

abbrev empty_queue : Tasks
empty_queue = record { tick = 0; waiting = [] }

enqueue_stk_webhook-IsPaid_example :
    let g =
      (serve_request site calm (Route.api ApiRoute.initiate_stk_push) (request "open") server).1 in
    (task : Task) × (w : World) × ((enqueue_stk_webhook broker "shopify" "{}" empty_queue).1.waiting
      ≡ task ∷ [])
    × (lookup (work calm decoder task g).pools "shopify" ≡ some w)
    × IsPaid "p2" "c1" (pos 15000) "RCP1" w
unfolding extract_mpesa_receipt
enqueue_stk_webhook-IsPaid_example =
    Queued.enqueue_stk_webhook-IsPaid site calm calm (request "open") push_body server fresh "p2"
      "ws_1" broker decoder empty_queue "shopify" "{}" "task" (callback (pos 0)) refl refl refl refl
      refl (λ n. refl) push_is_shown refl refl refl refl refl refl (λ n. refl)
