-- ===== src/Server/Apart.antt =====
-- What a request to /v1 may change, of all that the process holds (internal/router/router.go,
-- internal/middleware and internal/db/registry.go).
use mkwanja_payment_service.Prelude.{
  String, ◌≡◌, refl, true, false, some, ap, ◌∙◌, ◌⊎◌, inl, inr, Option-cases, str_eq, arith,
}
use mkwanja_payment_service.Db.World.{World, Env}
use mkwanja_payment_service.Config
use mkwanja_payment_service.Http.Messages.{Request}
use mkwanja_payment_service.Http.Site.{Site}
use mkwanja_payment_service.Http.Router.{ApiRoute, Route, serve}
use mkwanja_payment_service.Http.Router.Guarded.{serve-IsGuarded}
use mkwanja_payment_service.Server.Registry.{lookup, lookup-put, put-same}
use mkwanja_payment_service.Server.{Server, view, left, with_pools, serve_request}

left-view :
    (f : Server) (id : String) (w w' : World)
    → lookup f.pools id ≡ some w
    → w' ≡ view f w
    → left f id w w' ≡ f
left-view f id w w' found same =
    ap (left f id w) same ∙ ap (λ pools. record f { pools = pools }) (put-same id w f.pools found)

left-apart :
    (f : Server) (id d : String) (w w' : World)
    → str_eq id d ≡ false
    → lookup (left f id w w').pools d ≡ lookup f.pools d
left-apart f id d w w' other =
    ground (arith, other, lookup-put id d (record w' { routes = w.routes }) f.pools)

module _ (site : Site) (env : Env) (route : ApiRoute) (r : Request) (f : Server) (d : String) where
  -- A request to /v1 changes nothing, in any database or in Redis, unless its secret is right for the consumer
  -- that it names; and then it leaves the database of every other consumer as it was.
  pub serve_request-IsApart :
      str_eq r.consumer_id d ≡ false
      → let g = (serve_request site env (Route.api route) r f).1 in
        (g ≡ f)
        ⊎ ((Config.validate site.os site.consumers r.consumer_id r.service_secret ≡ true)
            × (lookup g.pools d ≡ lookup f.pools d))
  unfolding serve_request
  serve_request-IsApart other = elim (Option-cases (lookup f.pools r.consumer_id)) [
    | inl missing ↦ inl (rw (missing, serve_request) refl)
    | inr (w, found) ↦
        let w' = (serve (with_pools site f.pools) env (Route.api route) r (view f w)).1 in
        rw (found, serve_request)
          (elim (serve-IsGuarded (with_pools site f.pools) env r (view f w) route) [
            | inl (wrong, refused, same) ↦ inl (left-view f r.consumer_id w w' found same)
            | inr (right, inl same) ↦ inl (left-view f r.consumer_id w w' found same)
            | inr (right, inr here) ↦ inr (right, left-apart f r.consumer_id d w w' other)
          ])
  ]
