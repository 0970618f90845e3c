-- ===== src/Http/Router/Once.antt =====
-- How often a payment that is asked for over HTTP is requested from the provider (internal/router/router.go,
-- internal/handler/payment_handler.go and paystack_handler.go).
use mkwanja_payment_service.Prelude.{
  ◌≡◌, refl, ◌⊎◌, inl, inr, arith, Option, none, some, ap, ◌∙◌, sym,
}
use mathlib.Core.Path.{subst}
use mkwanja_payment_service.Prelude.Result.{Result, ok, err}
use mkwanja_payment_service.Db.World.{World, Env}
use mkwanja_payment_service.Service.Initiate.Replay.{IsIdle}
use mkwanja_payment_service.Service.Initiations.{Initiation, client_of, key_of, after}
use mkwanja_payment_service.Service.Reach.{Reach}
use mkwanja_payment_service.Service.Reach.Once.{sent_once}
use mkwanja_payment_service.Http.Messages.{Request, Locals}
use mkwanja_payment_service.Http.Site.{Site}
use mkwanja_payment_service.Http.Payments
use mkwanja_payment_service.Http.Paystack
use mkwanja_payment_service.Http.Router.{
  ApiRoute, Route, consumer, idempotency, keyed, endpoint, serve,
}

abbrev headers : Request → Locals
headers r = record { consumer_id = r.consumer_id; idempotency_key = r.idempotency_key }

abbrev asked : {B : Type 0} → Result B → (B → Initiation) → Option Initiation
asked (err e) f = none
asked (ok b) f = some (f b)

-- The payment that a request asks for, with the key of its header.
abbrev pub asks : Site → ApiRoute → Request → Option Initiation
asks site ApiRoute.initiate_stk_push r =
    asked (site.parser.stk_push r.body)
      (λ b. Initiation.stk (Payments.stk_push_request (headers r) b))
asks site ApiRoute.initiate_b2c r =
    asked (site.parser.b2c r.body) (λ b. Initiation.b2c (Payments.b2c_request (headers r) b))
asks site ApiRoute.initiate_b2b r =
    asked (site.parser.b2b r.body) (λ b. Initiation.b2b (Payments.b2b_request (headers r) b))
asks site ApiRoute.initiate_charge r =
    asked (site.parser.charge r.body)
      (λ b. Initiation.charge site.paystack (Paystack.charge_request (headers r) b))
asks site route r = none

asks-key :
    (site : Site) (route : ApiRoute) (r : Request) (a : Initiation)
    → asks site route r ≡ some a
    → key_of a ≡ r.idempotency_key
asks-key site route r a h = ground (arith, h)

module _ (site : Site) (env : Env) (r : Request) (w : World) where
  serve-asks :
      (route : ApiRoute) (a : Initiation)
      → asks site route r ≡ some a
      → ((serve site env (Route.api route) r w).1 ≡ w)
        ⊎ ((serve site env (Route.api route) r w).1 ≡ after env site.payments a w)
  unfolding serve consumer keyed idempotency endpoint Payments.initiate_stk_push
      Payments.initiate_b2c Payments.initiate_b2b Paystack.initiate_charge
  serve-asks route a h = ground (arith, h)

-- Of two requests over HTTP that ask for payments of one client with one Idempotency-Key, of whatever kinds,
-- with any operations on the database between them and whichever statements fail: the first sends no request
-- to a provider, or the second changes nothing but the count of statements, and so sends none.
pub posted_once :
    (site site' : Site) (env env' : Env) (route route' : ApiRoute) (r r' : Request)
    (a b : Initiation) (w v : World)
    → asks site route r ≡ some a
    → asks site' route' r' ≡ some b
    → client_of b ≡ client_of a
    → r'.idempotency_key ≡ r.idempotency_key
    → Reach (serve site env (Route.api route) r w).1 v
    → ((serve site env (Route.api route) r w).1.sent ≡ w.sent)
      ⊎ IsIdle v (serve site' env' (Route.api route') r' v).1
posted_once site site' env env' route route' r r' a b w v first second client key between =
    let keys : key_of b ≡ key_of a =
      asks-key site' route' r' b second ∙ key ∙ sym (asks-key site route r a first) in
    elim (serve-asks site env r w route a first) [
      | inl refused ↦ inl (ap (λ (u : World). u.sent) refused)
      | inr sends ↦ elim (serve-asks site' env' r' v route' b second) [
        | inl refused ↦ inr (rw refused refl)
        | inr again ↦
            elim (sent_once env env' site.payments site'.payments a b w v client keys
              (subst (λ (u : World). Reach u v) sends between)) [
                | inl silent ↦ inl (ap (λ (u : World). u.sent) sends ∙ silent)
                | inr idle ↦ inr (rw again idle)
              ]
      ]
    ]
