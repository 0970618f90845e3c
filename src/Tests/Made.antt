-- ===== src/Tests/Made.antt =====
-- The theorems about initiations that go through, at concrete inputs.
use mkwanja_payment_service.Prelude.{◌+◌, ◌≡◌, refl, true, false, some, ◌⊎◌}
use mkwanja_payment_service.Prelude.Int.{pos}
use mkwanja_payment_service.Prelude.Result.{ok}
use mkwanja_payment_service.Db.World.{World}
use mkwanja_payment_service.Db.Action.{◌>>=◌, query}
use mkwanja_payment_service.Db.Payments
use mkwanja_payment_service.Db.Clients
use mkwanja_payment_service.Repository.PaymentRepo
use mkwanja_payment_service.Repository.ClientRepo
use mkwanja_payment_service.Crypto.{decrypt}
use mkwanja_payment_service.Domain.Phone.{normalise_phone}
use mkwanja_payment_service.Service.Requests.{validate_stk_push, InitiateStkPushResult}
use mkwanja_payment_service.Service.Initiate.Common.{or_fail, daraja_client, call, store_route}
use mkwanja_payment_service.Service.Initiate.StkPush.{initiate_stk_push}
use mkwanja_payment_service.Service.Initiate.Replay.{IsIdle}
use mkwanja_payment_service.Service.Initiations.{Initiation, after}
use mkwanja_payment_service.Service.Initiations.Made
use mkwanja_payment_service.Service.Initiations.Made.{returned}
use mkwanja_payment_service.Service.Initiations.Made.Rows.{IsNew}
use mkwanja_payment_service.Service.Initiations.Again
use mkwanja_payment_service.Service.Reach.{Reach}
use mkwanja_payment_service.Http.Router.{ApiRoute, Route, serve}
use mkwanja_payment_service.Http.Router.Once
use mkwanja_payment_service.Tests.Data.{calm, fresh, stk, service}
use mkwanja_payment_service.Tests.SiteData.{site, request}

abbrev push_result : InitiateStkPushResult
push_result = record {
  payment_id = "p2";
  checkout_request_id = "ws_1";
  status = "pending";
  idempotency_replayed = false;
}

-- A push goes through.
goes_through : (initiate_stk_push calm service stk fresh).0 ≡ ok push_result
unfolding initiate_stk_push ◌>>=◌ validate_stk_push normalise_phone query
    PaymentRepo.get_payment_by_idempotency_key Payments.get_payment_by_idempotency_key
    PaymentRepo.create_payment Payments.create_payment or_fail ClientRepo.get_active_credentials
    Clients.get_active_credentials daraja_client decrypt call store_route
    PaymentRepo.update_provider_request_id Payments.update_provider_request_id
goes_through = refl

is_returned : returned calm service (Initiation.stk stk) fresh ≡ some ("p2", false)
is_returned = rw goes_through refl

returned-IsNew_example :
    IsNew "p2" "c1" "k1" (pos 15000) fresh (after calm service (Initiation.stk stk) fresh)
returned-IsNew_example =
    Made.returned-IsNew calm service (Initiation.stk stk) fresh "p2" is_returned

abbrev once : World
once = after calm service (Initiation.stk stk) fresh

returned-again_example :
    (returned calm service (Initiation.stk stk) once ≡ some ("p2", true))
    × (after calm service (Initiation.stk stk) once ≡ record once { tick = once.tick + 1 })
returned-again_example =
    Again.returned-again calm calm service service (Initiation.stk stk) fresh "p2" is_returned refl

abbrev served : World
served = (serve site calm (Route.api ApiRoute.initiate_stk_push) (request "open") fresh).1

posted_once_example :
    (served.sent ≡ fresh.sent)
    ⊎ IsIdle served
        (serve site calm (Route.api ApiRoute.initiate_stk_push) (request "open") served).1
posted_once_example =
    Once.posted_once site site calm calm ApiRoute.initiate_stk_push ApiRoute.initiate_stk_push
      (request "open") (request "open") (Initiation.stk (record stk { idempotency_key = "k2" }))
      (Initiation.stk (record stk { idempotency_key = "k2" })) fresh served refl refl refl refl
      Reach.here
