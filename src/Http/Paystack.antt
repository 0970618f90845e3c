-- ===== src/Http/Paystack.antt =====
-- internal/handler/paystack_handler.go
use mkwanja_payment_service.Prelude.{String, none}
use mkwanja_payment_service.Prelude.Result.{Result, ok, err}
use mkwanja_payment_service.Db.Models.{ClientPaystackCredential}
use mkwanja_payment_service.Db.World.{Env}
use mkwanja_payment_service.Service.Paystack
use mkwanja_payment_service.Service.Paystack.{
  RegisterPaystackCredentialsRequest, InitiatePaystackChargeRequest, InitiatePaystackChargeResult,
}
use mkwanja_payment_service.Service.Paystack.Charge
use mkwanja_payment_service.Service.Paystack.Webhook
use mkwanja_payment_service.Http.Messages.{
  Request, Locals, RegisterCredentialsBody, InitiateChargeBody,
}
use mkwanja_payment_service.Http.Reply.{
  KeysView, Body, Reply, Handler, reply, refuse, parsed, respond,
}
use mkwanja_payment_service.Http.Site.{Site}

abbrev pub keys_request : String → RegisterCredentialsBody → RegisterPaystackCredentialsRequest
keys_request client_id b = record {
  client_id = client_id;
  secret_key = b.secret_key;
  public_key = b.public_key;
}

abbrev pub charge_request : Locals → InitiateChargeBody → InitiatePaystackChargeRequest
charge_request l b = record {
  client_id = b.client_id;
  consumer_id = l.consumer_id;
  amount_cents = b.amount_cents;
  currency = b.currency;
  email = b.email;
  reference = b.reference;
  description = b.description;
  callback_url = b.callback_url;
  idempotency_key = l.idempotency_key;
}

-- The secret key is left out, sealed as it is.
abbrev pub keys_view : ClientPaystackCredential → KeysView
keys_view c = record {
  id = c.id;
  client_id = c.client_id;
  public_key = c.public_key;
  active = c.is_active;
  created_at = c.created_at;
}

module _ (site : Site) (env : Env) where
  abbrev pub keys_reply : Result ClientPaystackCredential → Reply
  keys_reply (err e) = refuse 400 "REGISTRATION_FAILED" (site.describe e)
  keys_reply (ok c) = reply 201 (Body.keys (keys_view c))

  unfoldable pub register_credentials : String → Request → Handler
  register_credentials client_id r = parsed (site.parser.keys r.body) (λ b.
      respond (Paystack.register_credentials env site.paystack (keys_request client_id b))
        keys_reply)

  abbrev pub charge_reply : Result InitiatePaystackChargeResult → Reply
  charge_reply (err e) = refuse 400 "INITIATION_FAILED" (site.describe e)
  charge_reply (ok r) = record {
    status = 201;
    replayed = r.idempotency_replayed;
    body = Body.charge r.payment_id r.authorization_url r.access_code r.status;
    queued = none;
  }

  unfoldable pub initiate_charge : Locals → Request → Handler
  initiate_charge l r =
      parsed (site.parser.charge r.body)
        (λ b. respond (Charge.initiate_charge env site.paystack (charge_request l b)) charge_reply)

  -- Whatever happens, the answer is 200.
  unfoldable pub handle_webhook : Request → Handler
  handle_webhook r =
      respond (Webhook.handle_webhook env site.paystack r.body r.signature)
        (λ result. reply 200 (Body.state "ok"))
