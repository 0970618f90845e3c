-- ===== src/Http/Router.antt =====
-- internal/router/router.go, internal/middleware and internal/db/registry.go: the routes, and what stands
-- in front of their handlers. Fiber finds the route of a request. Recovery and logging are left out.
pub mod Guarded
pub mod Steps
pub mod Once
use mkwanja_payment_service.Prelude.{
  ℕ, String, Bool, true, false, not, ◌||◌, is_empty, ◌<>◌, if◌then◌else◌,
}
use mkwanja_payment_service.Db.World.{Env}
use mkwanja_payment_service.Config
use mkwanja_payment_service.Http.Messages.{Request, Locals}
use mkwanja_payment_service.Http.Reply.{Body, Handler, Reply, reply, refuse, answered}
use mkwanja_payment_service.Http.Site.{Site, Pool, missing, this, another}
use mkwanja_payment_service.Http.Payments
use mkwanja_payment_service.Http.Clients
use mkwanja_payment_service.Http.Ledger
use mkwanja_payment_service.Http.Paystack
use mkwanja_payment_service.Http.Webhooks

pub data Method : Type 0 where
  get : Method
  post : Method
  put : Method
  delete : Method

-- The routes of the group /v1, with the parameters of their paths.
pub data ApiRoute : Type 0 where
  register_client : ApiRoute
  test_credentials : ApiRoute
  update_credentials : String → ApiRoute
  deactivate_client : String → ApiRoute
  get_client : String → ApiRoute
  list_clients : ApiRoute
  update_operator_credentials : ApiRoute
  initiate_stk_push : ApiRoute
  initiate_b2c : ApiRoute
  initiate_b2b : ApiRoute
  get_payment : String → ApiRoute
  list_payments : ApiRoute
  register_credentials : String → ApiRoute
  initiate_charge : ApiRoute
  list_entries : ApiRoute
  get_balances : ApiRoute
  get_trial_balance : ApiRoute

-- The other routes; the parameter of a webhook is the consumer.
pub data Route : Type 0 where
  api : ApiRoute → Route
  liveness : Route
  readiness : Route
  stk_callback : String → Route
  b2c_callback : String → Route
  b2b_callback : String → Route
  c2b_confirmation : String → Route
  c2b_validation : String → Route
  paystack_webhook : String → Route

abbrev pub method_of : ApiRoute → Method
method_of ApiRoute.register_client = post
method_of ApiRoute.test_credentials = post
method_of (ApiRoute.update_credentials id) = put
method_of (ApiRoute.deactivate_client id) = delete
method_of ApiRoute.update_operator_credentials = put
method_of ApiRoute.initiate_stk_push = post
method_of ApiRoute.initiate_b2c = post
method_of ApiRoute.initiate_b2b = post
method_of (ApiRoute.register_credentials id) = put
method_of ApiRoute.initiate_charge = post
method_of r = get

-- Whether `middleware.Idempotency()` stands in front of the handler.
abbrev pub is_idempotent : ApiRoute → Bool
is_idempotent ApiRoute.register_client = true
is_idempotent ApiRoute.test_credentials = true
is_idempotent (ApiRoute.update_credentials id) = true
is_idempotent ApiRoute.update_operator_credentials = true
is_idempotent ApiRoute.initiate_stk_push = true
is_idempotent ApiRoute.initiate_b2c = true
is_idempotent ApiRoute.initiate_b2b = true
is_idempotent (ApiRoute.register_credentials id) = true
is_idempotent ApiRoute.initiate_charge = true
is_idempotent r = false

abbrev is_post : Method → Bool
is_post post = true
is_post m = false

module _ (site : Site) (env : Env) where
  -- `middleware.Consumer`: the handler goes on with the consumer, on the consumer's database.
  unfoldable pub consumer : Request → (String → Handler) → Handler
  consumer r next =
      if is_empty r.consumer_id || is_empty r.service_secret
      then answered (refuse 401 "UNAUTHORIZED" "Missing X-Consumer-ID or X-Service-Secret header")
      else if not (Config.validate site.os site.consumers r.consumer_id r.service_secret)
      then answered (refuse 401 "UNAUTHORIZED" "Invalid consumer credentials")
      else elim (site.pools r.consumer_id) [
        | missing ↦
            answered
              (refuse 500 "INTERNAL" ("Database unavailable for consumer: " <> r.consumer_id))
        | this ↦ next r.consumer_id
        | another reply ↦ answered reply
      ]

  -- `middleware.Auth`, which no route mounts: the handler goes on with the consumer.
  unfoldable pub auth : Request → (String → Handler) → Handler
  auth r next =
      if is_empty r.consumer_id || is_empty r.service_secret
      then answered (refuse 401 "UNAUTHORIZED" "Missing X-Consumer-ID or X-Service-Secret header")
      else if not (Config.validate site.os site.consumers r.consumer_id r.service_secret)
      then answered (refuse 401 "UNAUTHORIZED" "Invalid consumer credentials")
      else next r.consumer_id

  -- `middleware.Idempotency`, for the method of the request: the handler goes on with the key.
  unfoldable pub idempotency : Method → Request → (String → Handler) → Handler
  idempotency method r next =
      if not (is_post method)
      then next ""
      else if is_empty r.idempotency_key
      then answered (
          refuse 400 "MISSING_IDEMPOTENCY_KEY"
            "Every POST request requires an Idempotency-Key header (UUID)")
      else if not (site.is_uuid r.idempotency_key)
      then answered (
          refuse 400 "INVALID_IDEMPOTENCY_KEY"
            ("Idempotency-Key must be a valid UUID: " <> r.idempotency_key))
      else next r.idempotency_key

  -- The handler of a route, with what the middleware left in the context.
  unfoldable pub endpoint : ApiRoute → Locals → Request → Handler
  endpoint ApiRoute.register_client l r = Clients.register_client site env r
  endpoint ApiRoute.test_credentials l r = Clients.test_credentials site env r
  endpoint (ApiRoute.update_credentials id) l r = Clients.update_credentials site env id r
  endpoint (ApiRoute.deactivate_client id) l r = Clients.deactivate_client site env id
  endpoint (ApiRoute.get_client id) l r = Clients.get_client site env id
  endpoint ApiRoute.list_clients l r = Clients.list_clients site env
  endpoint ApiRoute.update_operator_credentials l r = Clients.update_operator_credentials site env r
  endpoint ApiRoute.initiate_stk_push l r = Payments.initiate_stk_push site env l r
  endpoint ApiRoute.initiate_b2c l r = Payments.initiate_b2c site env l r
  endpoint ApiRoute.initiate_b2b l r = Payments.initiate_b2b site env l r
  endpoint (ApiRoute.get_payment id) l r = Payments.get_payment site env id
  endpoint ApiRoute.list_payments l r = Payments.list_payments site env r
  endpoint (ApiRoute.register_credentials id) l r = Paystack.register_credentials site env id r
  endpoint ApiRoute.initiate_charge l r = Paystack.initiate_charge site env l r
  endpoint ApiRoute.list_entries l r = Ledger.list_entries env r
  endpoint ApiRoute.get_balances l r = Ledger.get_balances env r
  endpoint ApiRoute.get_trial_balance l r = Ledger.get_trial_balance env r

  -- The key of a route without the idempotency middleware is empty.
  unfoldable pub keyed : ApiRoute → Request → (String → Handler) → Handler
  unfolding idempotency
  keyed route r next = if is_idempotent route then idempotency (method_of route) r next else next ""

  -- `handleWebhook` of the Paystack adapter: the database is that of the consumer of the path.
  unfoldable pub paystack_hook : String → Request → Handler
  paystack_hook consumer_id r = elim (site.pools consumer_id) [
    | missing ↦ answered (reply 200 (Body.state "ok"))
    | this ↦ Paystack.handle_webhook site env r
    | another reply ↦ answered reply
  ]

  unfoldable pub serve : Route → Request → Handler
  unfolding consumer keyed endpoint paystack_hook
  serve (Route.api route) r = consumer r (λ consumer_id.
      keyed route r
        (λ key. endpoint route (record { consumer_id = consumer_id; idempotency_key = key }) r))
  serve Route.liveness r = answered Webhooks.liveness
  serve Route.readiness r = answered (Webhooks.readiness site)
  serve (Route.stk_callback consumer_id) r =
      answered (Webhooks.handle_stk_callback site consumer_id r)
  serve (Route.b2c_callback consumer_id) r =
      answered (Webhooks.handle_b2c_callback site consumer_id r)
  serve (Route.b2b_callback consumer_id) r =
      answered (Webhooks.handle_b2b_callback site consumer_id r)
  serve (Route.c2b_confirmation consumer_id) r = answered Webhooks.handle_c2b_confirmation
  serve (Route.c2b_validation consumer_id) r = answered Webhooks.handle_c2b_validation
  serve (Route.paystack_webhook consumer_id) r = paystack_hook consumer_id r
