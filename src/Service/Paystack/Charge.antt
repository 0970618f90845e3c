-- ===== src/Service/Paystack/Charge.antt =====
-- internal/service/paystack_service.go: `InitiateCharge`.
use mkwanja_payment_service.Prelude.{String, true, false, none}
use mkwanja_payment_service.Prelude.Result.{ok, err, Result, wrap_err}
use mkwanja_payment_service.Crypto.{decrypt}
use mkwanja_payment_service.Daraja.Messages.{Sent}
use mkwanja_payment_service.Paystack.Messages.{
  InitializeTransactionRequest, InitializeTransactionData,
}
use mkwanja_payment_service.Db.Models.{
  Payment, PaymentType, paystack, inbound, null_string, status_text,
}
use mkwanja_payment_service.Db.World.{Env}
use mkwanja_payment_service.Db.Action.{Action, pure, lift, attempt, wrapped, ◌>>=◌, ◌>>◌}
use mkwanja_payment_service.Db.Payments.{CreatePaymentParams}
use mkwanja_payment_service.Repository.PaymentRepo
use mkwanja_payment_service.Repository.ClientRepo
use mkwanja_payment_service.Service.Paystack.{
  PaystackService, InitiatePaystackChargeRequest, InitiatePaystackChargeResult, validate_charge,
}
use mkwanja_payment_service.Service.Initiate.Common.{or_default, or_fail, call}

abbrev pub charge_payment : InitiatePaystackChargeRequest → CreatePaymentParams
charge_payment req = record {
  client_id = req.client_id;
  idempotency_key = req.idempotency_key;
  provider = paystack;
  payment_type = PaymentType.paystack_charge;
  direction = inbound;
  amount_cents = req.amount_cents;
  currency = or_default req.currency "KES";
  phone_number = none;
  receiver_shortcode = none;
  reference = req.reference;
  description = null_string req.description;
  metadata = none;
}

abbrev pub charge_request : InitiatePaystackChargeRequest → String → InitializeTransactionRequest
charge_request req payment_id = record {
  email = req.email;
  amount = req.amount_cents;
  currency = or_default req.currency "KES";
  reference = payment_id;
  callback_url = req.callback_url;
}

abbrev pub charge_replay : Payment → InitiatePaystackChargeResult
charge_replay p = record {
  payment_id = p.id;
  authorization_url = "";
  access_code = "";
  status = status_text p.status;
  idempotency_replayed = true;
}

abbrev pub charge_result : Payment → InitializeTransactionData → InitiatePaystackChargeResult
charge_result p answer = record {
  payment_id = p.id;
  authorization_url = answer.authorization_url;
  access_code = answer.access_code;
  status = status_text p.status;
  idempotency_replayed = false;
}

module _ (env : Env) (s : PaystackService) (req : InitiatePaystackChargeRequest) where
  -- The error of the update is logged only.
  unfoldable pub record_charge :
      Payment → InitializeTransactionData → Action InitiatePaystackChargeResult
  record_charge payment answer = do
    attempt
        (PaymentRepo.update_provider_request_id env payment.id (null_string answer.reference) none)
    pure (charge_result payment answer)

  unfoldable pub send_charge : Payment → Action InitiatePaystackChargeResult
  unfolding record_charge
  send_charge payment = do
    creds ←
        or_fail env payment.id "get paystack credentials"
          (ClientRepo.get_active_paystack_credentials env req.client_id)
    secret ←
        or_fail env payment.id "decrypt secret key"
          (lift (decrypt env.crypto s.encrypt_key creds.secret_key_encrypted))
    answer ← or_fail env payment.id "paystack initialize" (
        call (λ n. (s.build_client secret).initialize_transaction n (charge_request req payment.id))
          (Sent.paystack (charge_request req payment.id)))
    record_charge payment answer

  unfoldable pub start_charge : Result Payment → Action InitiatePaystackChargeResult
  unfolding send_charge
  start_charge (ok existing) = pure (charge_replay existing)
  start_charge (err _) = do
    payment ← wrapped "create payment" (PaymentRepo.create_payment env (charge_payment req))
    send_charge payment

  unfoldable pub initiate_charge : Action InitiatePaystackChargeResult
  unfolding start_charge
  initiate_charge = do
    lift (wrap_err "validation" (validate_charge req))
    existing ←
        attempt (PaymentRepo.get_payment_by_idempotency_key env req.client_id req.idempotency_key)
    start_charge existing
