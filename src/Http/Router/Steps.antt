-- ===== src/Http/Router/Steps.antt =====
-- What a request over HTTP does to a database (internal/router/router.go): nothing, or one operation of a
-- service.
use mkwanja_payment_service.Prelude.{
  if◌then◌else◌, String, refl, ◌⊎◌, inl, inr, Bool, true, false, Bool-cases, is_empty, arith,
}
use mkwanja_payment_service.Prelude.Result.{Result, ok, err}
use mkwanja_payment_service.Db.World.{World, Env}
use mkwanja_payment_service.Db.Action.{Action, lift}
use mkwanja_payment_service.Db.Keeps.{Keeps, IsTimeless}
use mkwanja_payment_service.Service.Clients.TestCredentials.{test_credentials}
use mkwanja_payment_service.Service.Paystack.Webhook.{handle_webhook}
use mkwanja_payment_service.Service.Reads.{
  get_payment-Keeps, list_payments-Keeps, get_client-Keeps, list_clients-Keeps, list_entries-Keeps,
  get_account_balances-Keeps, get_trial_balance-Keeps,
}
use mkwanja_payment_service.Service.Initiate.Replay.{IsIdle, IsIdle-IsTimeless}
use mkwanja_payment_service.Service.Initiations.{Initiation}
use mkwanja_payment_service.Service.Reach.{Step}
use mkwanja_payment_service.Http.Messages.{Request, Locals}
use mkwanja_payment_service.Http.Reply.{Reply, Handler, parsed, answered}
use mkwanja_payment_service.Http.Site.{Site}
use mkwanja_payment_service.Http.Payments
use mkwanja_payment_service.Http.Clients
use mkwanja_payment_service.Http.Ledger
use mkwanja_payment_service.Http.Paystack
use mkwanja_payment_service.Http.Router.{
  Method, ApiRoute, Route, is_idempotent, method_of, consumer, idempotency, keyed, endpoint,
  paystack_hook, serve,
}

abbrev locals : String → String → Locals
locals consumer_id key = record { consumer_id = consumer_id; idempotency_key = key }

module _ (site : Site) (env : Env) (w : World) where
  abbrev pub IsStep : World → Type 0
  IsStep w' = IsIdle w w' ⊎ Step env site.payments w w'

  parsed-IsStep :
      {B : Type 0} (body : Result B) (go : B → Handler)
      → ((b : B) → IsStep (go b w).1)
      → IsStep (parsed body go w).1
  parsed-IsStep (ok b) go steps = steps b
  parsed-IsStep (err e) go steps = inl refl

  guarded-IsStep :
      (b : Bool) (refusal : Reply) (go : Handler)
      → IsStep (go w).1
      → IsStep ((if b then answered refusal else go) w).1
  guarded-IsStep true refusal go step = inl refl
  guarded-IsStep false refusal go step = step

  read-IsStep : {A : Type 0} (m : Action A) → Keeps (IsIdle w) m → IsStep (m w).1
  read-IsStep m k = inl (k.at w refl)

  idle : IsTimeless (IsIdle w)
  idle = IsIdle-IsTimeless w

  endpoint-IsStep :
      (route : ApiRoute) (l : Locals) (r : Request) → IsStep (endpoint site env route l r w).1
  unfolding endpoint Clients.register_client Clients.test_credentials Clients.update_credentials
      Clients.deactivate_client Clients.get_client Clients.list_clients
      Clients.update_operator_credentials Payments.initiate_stk_push Payments.initiate_b2c
      Payments.initiate_b2b Payments.get_payment Payments.list_payments
      Paystack.register_credentials Paystack.initiate_charge Ledger.list_entries Ledger.get_balances
      Ledger.get_trial_balance test_credentials lift
  endpoint-IsStep ApiRoute.register_client l r =
      parsed-IsStep (site.parser.client r.body) _
        (λ b. inr (Step.register site.encrypt_key (Clients.register_request b)))
  endpoint-IsStep ApiRoute.test_credentials l r =
      parsed-IsStep (site.parser.test r.body) _ (λ b. inl refl)
  endpoint-IsStep (ApiRoute.update_credentials id) l r = guarded-IsStep (is_empty id) _ _ (
      parsed-IsStep (site.parser.update r.body) _
        (λ b. inr (Step.update site.encrypt_key (Clients.update_request id b))))
  endpoint-IsStep (ApiRoute.deactivate_client id) l r =
      guarded-IsStep (is_empty id) _ _ (inr (Step.deactivate id))
  endpoint-IsStep (ApiRoute.get_client id) l r =
      guarded-IsStep (is_empty id) _ _ (read-IsStep _ (get_client-Keeps idle env id))
  endpoint-IsStep ApiRoute.list_clients l r = read-IsStep _ (list_clients-Keeps idle env)
  endpoint-IsStep ApiRoute.update_operator_credentials l r =
      guarded-IsStep (is_empty site.operator_client_id) _ _ (
        parsed-IsStep (site.parser.update r.body) _ (λ b.
          inr (Step.update site.encrypt_key (Clients.update_request site.operator_client_id b))))
  endpoint-IsStep ApiRoute.initiate_stk_push l r =
      parsed-IsStep (site.parser.stk_push r.body) _
        (λ b. inr (Step.initiate (Initiation.stk (Payments.stk_push_request l b))))
  endpoint-IsStep ApiRoute.initiate_b2c l r =
      parsed-IsStep (site.parser.b2c r.body) _
        (λ b. inr (Step.initiate (Initiation.b2c (Payments.b2c_request l b))))
  endpoint-IsStep ApiRoute.initiate_b2b l r =
      parsed-IsStep (site.parser.b2b r.body) _
        (λ b. inr (Step.initiate (Initiation.b2b (Payments.b2b_request l b))))
  endpoint-IsStep (ApiRoute.get_payment id) l r =
      guarded-IsStep (is_empty id) _ _ (read-IsStep _ (get_payment-Keeps idle env id))
  endpoint-IsStep ApiRoute.list_payments l r =
      guarded-IsStep (is_empty r.client_id) _ _
        (read-IsStep _ (list_payments-Keeps idle env r.client_id _ _))
  endpoint-IsStep (ApiRoute.register_credentials id) l r =
      parsed-IsStep (site.parser.keys r.body) _
        (λ b. inr (Step.register_keys site.paystack (Paystack.keys_request id b)))
  endpoint-IsStep ApiRoute.initiate_charge l r =
      parsed-IsStep (site.parser.charge r.body) _
        (λ b. inr (Step.initiate (Initiation.charge site.paystack (Paystack.charge_request l b))))
  endpoint-IsStep ApiRoute.list_entries l r =
      guarded-IsStep (is_empty r.client_id) _ _
        (read-IsStep _ (list_entries-Keeps idle env r.client_id _ _))
  endpoint-IsStep ApiRoute.get_balances l r =
      guarded-IsStep (is_empty r.client_id) _ _
        (read-IsStep _ (get_account_balances-Keeps idle env r.client_id))
  endpoint-IsStep ApiRoute.get_trial_balance l r =
      guarded-IsStep (is_empty r.client_id) _ _
        (read-IsStep _ (get_trial_balance-Keeps idle env r.client_id))

  idempotency-IsStep :
      (method : Method) (r : Request) (next : String → Handler)
      → ((key : String) → IsStep (next key w).1)
      → IsStep (idempotency site env method r next w).1
  unfolding idempotency
  idempotency-IsStep method r next steps = ground (arith, steps "", steps r.idempotency_key)

  keyed-IsStep :
      (route : ApiRoute) (r : Request) (next : String → Handler)
      → ((key : String) → IsStep (next key w).1)
      → IsStep (keyed site env route r next w).1
  unfolding keyed
  keyed-IsStep route r next steps = elim (Bool-cases (is_idempotent route)) [
    | inl mounted ↦ rw mounted (idempotency-IsStep (method_of route) r next steps)
    | inr bare ↦ rw bare (steps "")
  ]

  consumer-IsStep :
      (r : Request) (next : String → Handler)
      → IsStep (next r.consumer_id w).1
      → IsStep (consumer site env r next w).1
  unfolding consumer
  consumer-IsStep r next step = ground (arith, step)

  paystack_hook-IsStep :
      (consumer_id : String) (r : Request) → IsStep (paystack_hook site env consumer_id r w).1
  unfolding paystack_hook Paystack.handle_webhook
  paystack_hook-IsStep consumer_id r =
      let step : IsStep (handle_webhook env site.paystack r.body r.signature w).1 =
        inr (Step.paystack_webhook site.paystack r.body r.signature) in
      ground (arith, step)

  -- A request over HTTP changes nothing but the count of statements, or is one operation of a service: one
  -- of those that the invariants of the service over time are about.
  pub serve-IsStep : (route : Route) (r : Request) → IsStep (serve site env route r w).1
  unfolding serve
  serve-IsStep (Route.api route) r =
      consumer-IsStep r
        (λ id. keyed site env route r (λ key. endpoint site env route (locals id key) r))
        (keyed-IsStep route r (λ key. endpoint site env route (locals r.consumer_id key) r)
          (λ key. endpoint-IsStep route (locals r.consumer_id key) r))
  serve-IsStep (Route.paystack_webhook consumer_id) r = paystack_hook-IsStep consumer_id r
  serve-IsStep Route.liveness r = inl refl
  serve-IsStep Route.readiness r = inl refl
  serve-IsStep (Route.stk_callback consumer_id) r = inl refl
  serve-IsStep (Route.b2c_callback consumer_id) r = inl refl
  serve-IsStep (Route.b2b_callback consumer_id) r = inl refl
  serve-IsStep (Route.c2b_confirmation consumer_id) r = inl refl
  serve-IsStep (Route.c2b_validation consumer_id) r = inl refl
