-- ===== src/Http/Router/Guarded.antt =====
-- Who may change a database over /v1 (internal/router/router.go, internal/middleware/consumer.go and
-- idempotency.go).
use mkwanja_payment_service.Prelude.{◌≡◌, Bool, true, false, ◌⊎◌, inl, inr, arith, String}
use mkwanja_payment_service.Db.World.{World, Env}
use mkwanja_payment_service.Config
use mkwanja_payment_service.Http.Messages.{Request}
use mkwanja_payment_service.Http.Reply.{Handler}
use mkwanja_payment_service.Http.Site.{Site, this}
use mkwanja_payment_service.Http.Router.{
  Method, ApiRoute, Route, method_of, is_post, is_idempotent, consumer, idempotency, keyed,
  endpoint, serve,
}

module _ (site : Site) (env : Env) (r : Request) (w : World) where
  abbrev pub is_valid : Bool
  is_valid = Config.validate site.os site.consumers r.consumer_id r.service_secret

  -- The request is a POST with a key that is a UUID, or no POST.
  abbrev pub IsKeyed : Method → Type 0
  IsKeyed method = (is_post method ≡ false) ⊎ (site.is_uuid r.idempotency_key ≡ true)

  idempotency-guards :
      (method : Method) (next : String → Handler)
      → ((idempotency site env method r next w).1 ≡ w) ⊎ IsKeyed method
  unfolding idempotency
  idempotency-guards method next = ground arith

  -- Every POST of /v1 wants a key.
  post-is_idempotent :
      (route : ApiRoute) → (is_post (method_of route) ≡ false) ⊎ (is_idempotent route ≡ true)
  post-is_idempotent route = ground arith

  keyed-guards :
      (route : ApiRoute) (next : String → Handler)
      → ((keyed site env route r next w).1 ≡ w) ⊎ IsKeyed (method_of route)
  unfolding keyed
  keyed-guards route next = elim (post-is_idempotent route) [
    | inl no_post ↦ inr (inl no_post)
    | inr mounted ↦ rw mounted (idempotency-guards (method_of route) next)
  ]

  -- A request to /v1 with a secret that is wrong is answered with 401, and changes nothing. Any other
  -- request to /v1 changes nothing either, unless the consumer has this database, and a POST has a key that
  -- is a UUID.
  pub serve-IsGuarded :
      (route : ApiRoute)
      → let (reply, w') = serve site env (Route.api route) r w in
        ((is_valid ≡ false) × (reply.status ≡ 401) × (w' ≡ w))
        ⊎ ((is_valid ≡ true)
            × ((w' ≡ w) ⊎ ((site.pools r.consumer_id ≡ this) × IsKeyed (method_of route))))
  unfolding serve consumer
  serve-IsGuarded route = ground (
    arith,
    keyed-guards route (λ key.
        endpoint site env route (record { consumer_id = r.consumer_id; idempotency_key = key }) r),
  )
