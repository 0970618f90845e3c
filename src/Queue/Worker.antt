-- ===== src/Queue/Worker.antt =====
-- internal/queue/worker.go and jobs.go, and internal/service/tenant_completer.go. JSON and the registry
-- of databases are parameters. Logging is left out.
use mkwanja_payment_service.Prelude.Split.{split_in_3}
use mkwanja_payment_service.Prelude.{
  ⊤, String, List, [], ◌∷◌, none, some, find, str_eq, ◌<>◌, if◌then◌else◌,
}
use mkwanja_payment_service.Prelude.Int.{ℤ, pos, eq_ℤ}
use mkwanja_payment_service.Prelude.Result.{Result, ok, err, msg, wrap_err}
use mkwanja_payment_service.Db.World.{Env}
use mkwanja_payment_service.Db.Action.{Action, pure, raise, lift, wrapped, query, ◌>>=◌}
use mkwanja_payment_service.Service.Settle
use mkwanja_payment_service.Service.Initiate.Common.{or_default}
use mkwanja_payment_service.Service.Initiate.StkPush.{routing_key}

-- A value of type `any`: the worker asks whether it is a text.
pub data AnyValue : Type 0 where
  text : String → AnyValue
  other : AnyValue

pub record StkCallbackMetadataItem : Type 0 where
  pub name : String
  pub value : AnyValue

-- The fields of `STKCallback` that the worker reads.
pub record StkCallback : Type 0 where
  pub checkout_request_id : String
  pub result_code : ℤ
  pub result_desc : String
  pub items : List StkCallbackMetadataItem

pub record StkWebhookPayload : Type 0 where
  pub consumer_id : String
  pub checkout_request_id : String
  pub raw_body : String

-- `json.Unmarshal` into the two types.
pub record Json : Type 0 where
  pub payload : String → Result StkWebhookPayload
  pub callback : String → Result StkCallback

-- Which database a consumer has: the one of the `World`, or another one, where a call returns
-- something and leaves this one alone.
pub data Tenant : Type 0 where
  this : Tenant
  another : Result ⊤ → Tenant

unfoldable pub extract_mpesa_receipt : List StkCallbackMetadataItem → String
extract_mpesa_receipt [] = ""
extract_mpesa_receipt (item ∷ items) =
    let rest = extract_mpesa_receipt items in
    if str_eq item.name "MpesaReceiptNumber"
    then elim item.value [ text v ↦ v | other ↦ rest ]
    else rest

module _ (env : Env) where
  -- rdb.Get(ctx, key).Result(), for the last value that was set
  unfoldable pub get_route : String → Action String
  get_route key = query env λ w. elim (find (λ r. str_eq r.0 key) w.routes) [
    | none ↦ err (msg "redis: nil")
    | some route ↦ ok route.1
  ]

  module _ (registry : String → Result Tenant) where
    unfoldable pub on_tenant : Tenant → Action ⊤ → Action ⊤
    on_tenant this settle = settle
    on_tenant (another r) settle = lift r

    -- `TenantCompleter.CompletePayment` and `TenantCompleter.FailPayment`
    unfoldable pub complete_payment : String → String → String → String → Action ⊤
    unfolding on_tenant
    complete_payment consumer_id payment_id receipt tx_id = do
      tenant ← lift (wrap_err ("resolve consumer db " <> consumer_id) (registry consumer_id))
      on_tenant tenant (Settle.complete_payment env payment_id receipt tx_id)

    unfoldable pub fail_payment : String → String → String → Action ⊤
    unfolding on_tenant
    fail_payment consumer_id payment_id reason = do
      tenant ← lift (wrap_err ("resolve consumer db " <> consumer_id) (registry consumer_id))
      on_tenant tenant (Settle.fail_payment env payment_id reason)

    -- if cb.Body.StkCallback.ResultCode == 0 { ... } else { ... }
    unfoldable pub settle : StkCallback → String → String → Action ⊤
    unfolding complete_payment fail_payment
    settle cb consumer_id payment_id =
        if eq_ℤ cb.result_code (pos 0)
        then wrapped ("complete payment " <> payment_id) (
            complete_payment consumer_id payment_id (extract_mpesa_receipt cb.items)
              cb.checkout_request_id)
        else wrapped ("fail payment " <> payment_id)
            (fail_payment consumer_id payment_id cb.result_desc)

    -- From the parts of the routing value on.
    unfoldable pub follow : StkWebhookPayload → StkCallback → String → List String → Action ⊤
    unfolding settle
    follow payload cb route (consumer_id ∷ client_id ∷ payment_id ∷ rest) =
        settle cb (or_default consumer_id payload.consumer_id) payment_id
    follow payload cb route _ = raise (msg ("invalid routing value: " <> route))

    unfoldable pub handle_stk_webhook : Json → String → Action ⊤
    unfolding follow
    handle_stk_webhook json task = do
      payload ← lift (wrap_err "parse stk webhook payload" (json.payload task))
      cb ← lift (wrap_err "parse stk callback body" (json.callback payload.raw_body))
      route ←
          wrapped ("lookup routing key " <> routing_key cb.checkout_request_id)
            (get_route (routing_key cb.checkout_request_id))
      follow payload cb route (split_in_3 b':' route)

pub record B2cWebhookPayload : Type 0 where
  pub consumer_id : String
  pub raw_body : String

pub record B2bWebhookPayload : Type 0 where
  pub consumer_id : String
  pub raw_body : String

-- The task of a B2C or a B2B callback is read, and is logged.
unfoldable pub handle_b2c_webhook : (String → Result B2cWebhookPayload) → String → Action ⊤
handle_b2c_webhook decode task =
    lift (wrap_err "parse b2c webhook payload" (decode task)) >>= (λ payload. pure tt)

unfoldable pub handle_b2b_webhook : (String → Result B2bWebhookPayload) → String → Action ⊤
handle_b2b_webhook decode task =
    lift (wrap_err "parse b2b webhook payload" (decode task)) >>= (λ payload. pure tt)
