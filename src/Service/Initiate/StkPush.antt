-- ===== src/Service/Initiate/StkPush.antt =====
-- internal/service/payment_service.go: `InitiateSTKPush`.
use mkwanja_payment_service.Prelude.{String, true, false, none, some, is_empty, ◌<>◌, if◌then◌else◌}
use mkwanja_payment_service.Prelude.Result.{ok, err, Result, wrap_err}
use mkwanja_payment_service.Daraja.Messages.{StkPushRequest, StkPushResponse, Sent}
use mkwanja_payment_service.Db.Models.{
  Payment, ClientCredential, PaymentType, mpesa, inbound, null_string, status_text,
}
use mkwanja_payment_service.Db.World.{Env}
use mkwanja_payment_service.Db.Action.{Action, pure, lift, attempt, wrapped, ◌>>=◌, ◌>>◌}
use mkwanja_payment_service.Db.Payments.{CreatePaymentParams}
use mkwanja_payment_service.Domain.Phone.{normalise_phone}
use mkwanja_payment_service.Repository.PaymentRepo
use mkwanja_payment_service.Repository.ClientRepo
use mkwanja_payment_service.Service.Requests.{
  InitiateStkPushRequest, InitiateStkPushResult, PaymentService, validate_stk_push,
}
use mkwanja_payment_service.Service.Initiate.Common.{
  or_default, amount_kes, or_fail, daraja_client, store_route, call,
}

abbrev pub stk_payment : InitiateStkPushRequest → String → CreatePaymentParams
stk_payment req phone = record {
  client_id = req.client_id;
  idempotency_key = req.idempotency_key;
  provider = mpesa;
  payment_type = PaymentType.stk_push;
  direction = inbound;
  amount_cents = req.amount_cents;
  currency = or_default req.currency "KES";
  phone_number = some phone;
  receiver_shortcode = none;
  reference = req.reference;
  description = null_string req.description;
  metadata = none;
}

abbrev pub stk_request :
    PaymentService → InitiateStkPushRequest → String → ClientCredential → StkPushRequest
stk_request s req phone creds = record {
  business_short_code = creds.shortcode;
  password = "";
  timestamp = "";
  transaction_type = "";
  amount = amount_kes req.amount_cents;
  party_a = phone;
  party_b = creds.shortcode;
  phone_number = phone;
  callback_url =
      if is_empty req.consumer_id
      then s.callback_url
      else s.callback_url <> "/webhooks/mpesa/stk/" <> req.consumer_id;
  account_reference = req.reference;
  transaction_desc = req.description;
}

-- routingValue := req.ConsumerID + ":" + req.ClientID + ":" + payment.ID
abbrev pub routing_key : String → String
routing_key checkout_id = "stk:" <> checkout_id

abbrev pub routing_value : String → String → String → String
routing_value consumer_id client_id payment_id =
    consumer_id <> ":" <> client_id <> ":" <> payment_id

abbrev pub stk_replay : Payment → InitiateStkPushResult
stk_replay p = record {
  payment_id = p.id;
  checkout_request_id = "";
  status = status_text p.status;
  idempotency_replayed = true;
}

abbrev pub stk_result : Payment → StkPushResponse → InitiateStkPushResult
stk_result p resp = record {
  payment_id = p.id;
  checkout_request_id = resp.checkout_request_id;
  status = status_text p.status;
  idempotency_replayed = false;
}

module _ (env : Env) (s : PaymentService) (req : InitiateStkPushRequest) where
  -- From the answer of the provider to the result: errors are logged only.
  unfoldable pub record_stk_push : Payment → StkPushResponse → Action InitiateStkPushResult
  record_stk_push payment resp = do
    attempt (
        PaymentRepo.update_provider_request_id env payment.id (null_string resp.checkout_request_id)
          none)
    attempt (
        store_route env s (routing_key resp.checkout_request_id)
          (routing_value req.consumer_id req.client_id payment.id))
    pure (stk_result payment resp)

  -- From the row of the payment on.
  unfoldable pub send_stk_push : String → Payment → Action InitiateStkPushResult
  unfolding record_stk_push
  send_stk_push phone payment = do
    creds ←
        or_fail env payment.id "get active credentials"
          (ClientRepo.get_active_credentials env req.client_id)
    dc ← daraja_client env s payment.id creds
    resp ← or_fail env payment.id "daraja stk push" (
        call (λ n. dc.initiate_stk_push n (stk_request s req phone creds))
          (Sent.stk (stk_request s req phone creds)))
    record_stk_push payment resp

  -- From the lookup of the idempotency key on.
  unfoldable pub start_stk_push : String → Result Payment → Action InitiateStkPushResult
  unfolding send_stk_push
  start_stk_push phone (ok existing) = pure (stk_replay existing)
  start_stk_push phone (err _) = do
    payment ← wrapped "create payment" (PaymentRepo.create_payment env (stk_payment req phone))
    send_stk_push phone payment

  unfoldable pub initiate_stk_push : Action InitiateStkPushResult
  unfolding start_stk_push
  initiate_stk_push = do
    lift (wrap_err "validation" (validate_stk_push req))
    phone ← lift (wrap_err "phone validation" (normalise_phone req.phone_number))
    existing ←
        attempt (PaymentRepo.get_payment_by_idempotency_key env req.client_id req.idempotency_key)
    start_stk_push phone existing
