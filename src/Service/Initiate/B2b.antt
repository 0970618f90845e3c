-- ===== src/Service/Initiate/B2b.antt =====
-- internal/service/payment_service.go: `InitiateB2B`.
use mkwanja_payment_service.Prelude.{String, true, false, none, ◌<>◌}
use mkwanja_payment_service.Prelude.Result.{ok, err, Result, wrap_err}
use mkwanja_payment_service.Daraja.Messages.{B2bRequest, B2bResponse, Sent}
use mkwanja_payment_service.Db.Models.{
  Payment, ClientCredential, PaymentType, mpesa, outbound, null_string, status_text,
}
use mkwanja_payment_service.Db.World.{Env}
use mkwanja_payment_service.Db.Action.{Action, pure, lift, attempt, wrapped, ◌>>=◌, ◌>>◌}
use mkwanja_payment_service.Db.Payments.{CreatePaymentParams}
use mkwanja_payment_service.Repository.PaymentRepo
use mkwanja_payment_service.Repository.ClientRepo
use mkwanja_payment_service.Service.Requests.{
  InitiateB2bRequest, InitiateB2bResult, PaymentService, validate_b2b,
}
use mkwanja_payment_service.Service.Initiate.Common.{
  or_default, amount_kes, or_fail, daraja_client, security_credential, call,
}
use mkwanja_payment_service.Service.Initiate.B2c.{initiator_of}

abbrev pub b2b_payment : InitiateB2bRequest → CreatePaymentParams
b2b_payment req = record {
  client_id = req.client_id;
  idempotency_key = req.idempotency_key;
  provider = mpesa;
  payment_type = PaymentType.b2b;
  direction = outbound;
  amount_cents = req.amount_cents;
  currency = or_default req.currency "KES";
  phone_number = none;
  receiver_shortcode = null_string req.receiver_shortcode;
  reference = req.reference;
  description = null_string req.description;
  metadata = none;
}

abbrev pub b2b_request :
    PaymentService → InitiateB2bRequest → ClientCredential → String → B2bRequest
b2b_request s req creds security = record {
  initiator = initiator_of creds.initiator_name;
  security_credential = security;
  command_id = or_default req.command_id "BusinessPayBill";
  sender_identifier_type = or_default req.sender_id_type "4";
  receiver_identifier_type = or_default req.receiver_id_type "4";
  amount = amount_kes req.amount_cents;
  party_a = creds.shortcode;
  party_b = req.receiver_shortcode;
  account_reference = req.reference;
  remarks = req.remarks;
  queue_time_out_url = s.callback_url <> "/webhooks/mpesa/b2b/" <> req.consumer_id;
  result_url = s.callback_url <> "/webhooks/mpesa/b2b/" <> req.consumer_id;
}

abbrev pub b2b_replay : Payment → InitiateB2bResult
b2b_replay p = record {
  payment_id = p.id;
  conversation_id = "";
  originator_conv_id = "";
  status = status_text p.status;
  idempotency_replayed = true;
}

abbrev pub b2b_result : Payment → B2bResponse → InitiateB2bResult
b2b_result p resp = record {
  payment_id = p.id;
  conversation_id = resp.conversation_id;
  originator_conv_id = resp.originator_conversation_id;
  status = status_text p.status;
  idempotency_replayed = false;
}

module _ (env : Env) (s : PaymentService) (req : InitiateB2bRequest) where
  unfoldable pub record_b2b : Payment → B2bResponse → Action InitiateB2bResult
  record_b2b payment resp = do
    attempt (
        PaymentRepo.update_provider_request_id env payment.id (null_string resp.conversation_id)
          none)
    pure (b2b_result payment resp)

  unfoldable pub send_b2b : Payment → Action InitiateB2bResult
  unfolding record_b2b
  send_b2b payment = do
    creds ←
        or_fail env payment.id "get active credentials"
          (ClientRepo.get_active_credentials env req.client_id)
    dc ← daraja_client env s payment.id creds
    security ← security_credential env s payment.id creds.security_credential_encrypted
    resp ← or_fail env payment.id "daraja b2b" (
        call (λ n. dc.initiate_b2b n (b2b_request s req creds security))
          (Sent.b2b (b2b_request s req creds security)))
    record_b2b payment resp

  unfoldable pub start_b2b : Result Payment → Action InitiateB2bResult
  unfolding send_b2b
  start_b2b (ok existing) = pure (b2b_replay existing)
  start_b2b (err _) = do
    payment ← wrapped "create payment" (PaymentRepo.create_payment env (b2b_payment req))
    send_b2b payment

  unfoldable pub initiate_b2b : Action InitiateB2bResult
  unfolding start_b2b
  initiate_b2b = do
    lift (wrap_err "validation" (validate_b2b req))
    existing ←
        attempt (PaymentRepo.get_payment_by_idempotency_key env req.client_id req.idempotency_key)
    start_b2b existing
