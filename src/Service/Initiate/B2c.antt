-- ===== src/Service/Initiate/B2c.antt =====
-- internal/service/payment_service.go: `InitiateB2C`.
use mkwanja_payment_service.Prelude.{String, true, false, Option, none, some, ◌<>◌}
use mkwanja_payment_service.Prelude.Result.{ok, err, Result, wrap_err}
use mkwanja_payment_service.Daraja.Messages.{B2cRequest, B2cResponse, Sent}
use mkwanja_payment_service.Db.Models.{
  Payment, ClientCredential, PaymentType, mpesa, outbound, null_string, status_text,
}
use mkwanja_payment_service.Db.World.{Env}
use mkwanja_payment_service.Db.Action.{Action, pure, lift, attempt, wrapped, ◌>>=◌, ◌>>◌}
use mkwanja_payment_service.Db.Payments.{CreatePaymentParams}
use mkwanja_payment_service.Domain.Phone.{normalise_phone}
use mkwanja_payment_service.Repository.PaymentRepo
use mkwanja_payment_service.Repository.ClientRepo
use mkwanja_payment_service.Service.Requests.{
  InitiateB2cRequest, InitiateB2cResult, PaymentService, validate_b2c,
}
use mkwanja_payment_service.Service.Initiate.Common.{
  or_default, amount_kes, or_fail, daraja_client, security_credential, call,
}

abbrev pub b2c_payment : InitiateB2cRequest → String → CreatePaymentParams
b2c_payment req phone = record {
  client_id = req.client_id;
  idempotency_key = req.idempotency_key;
  provider = mpesa;
  payment_type = PaymentType.b2c;
  direction = outbound;
  amount_cents = req.amount_cents;
  currency = or_default req.currency "KES";
  phone_number = some phone;
  receiver_shortcode = none;
  reference = req.reference;
  description = null_string req.description;
  metadata = none;
}

-- initiatorName := ""; if creds.InitiatorName.Valid { ... }
abbrev pub initiator_of : Option String → String
initiator_of none = ""
initiator_of (some name) = name

abbrev pub b2c_request :
    PaymentService → InitiateB2cRequest → String → ClientCredential → String → B2cRequest
b2c_request s req phone creds security = record {
  originator_conversation_id = "";
  initiator_name = initiator_of creds.initiator_name;
  security_credential = security;
  command_id = req.command_id;
  amount = amount_kes req.amount_cents;
  party_a = creds.shortcode;
  party_b = phone;
  remarks = req.remarks;
  queue_time_out_url = s.callback_url <> "/webhooks/mpesa/b2c/" <> req.consumer_id;
  result_url = s.callback_url <> "/webhooks/mpesa/b2c/" <> req.consumer_id;
  occasion = req.occasion;
}

abbrev pub b2c_replay : Payment → InitiateB2cResult
b2c_replay p = record {
  payment_id = p.id;
  conversation_id = "";
  originator_conv_id = "";
  status = status_text p.status;
  idempotency_replayed = true;
}

abbrev pub b2c_result : Payment → B2cResponse → InitiateB2cResult
b2c_result p resp = record {
  payment_id = p.id;
  conversation_id = resp.conversation_id;
  originator_conv_id = resp.originator_conversation_id;
  status = status_text p.status;
  idempotency_replayed = false;
}

module _ (env : Env) (s : PaymentService) (req : InitiateB2cRequest) where
  unfoldable pub record_b2c : Payment → B2cResponse → Action InitiateB2cResult
  record_b2c payment resp = do
    attempt (
        PaymentRepo.update_provider_request_id env payment.id (null_string resp.conversation_id)
          none)
    pure (b2c_result payment resp)

  unfoldable pub send_b2c : String → Payment → Action InitiateB2cResult
  unfolding record_b2c
  send_b2c phone payment = do
    creds ←
        or_fail env payment.id "get active credentials"
          (ClientRepo.get_active_credentials env req.client_id)
    dc ← daraja_client env s payment.id creds
    security ← security_credential env s payment.id creds.security_credential_encrypted
    resp ← or_fail env payment.id "daraja b2c" (
        call (λ n. dc.initiate_b2c n (b2c_request s req phone creds security))
          (Sent.b2c (b2c_request s req phone creds security)))
    record_b2c payment resp

  unfoldable pub start_b2c : String → Result Payment → Action InitiateB2cResult
  unfolding send_b2c
  start_b2c phone (ok existing) = pure (b2c_replay existing)
  start_b2c phone (err _) = do
    payment ← wrapped "create payment" (PaymentRepo.create_payment env (b2c_payment req phone))
    send_b2c phone payment

  unfoldable pub initiate_b2c : Action InitiateB2cResult
  unfolding start_b2c
  initiate_b2c = do
    lift (wrap_err "validation" (validate_b2c req))
    phone ← lift (wrap_err "phone validation" (normalise_phone req.phone_number))
    existing ←
        attempt (PaymentRepo.get_payment_by_idempotency_key env req.client_id req.idempotency_key)
    start_b2c phone existing
