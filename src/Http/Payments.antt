-- ===== src/Http/Payments.antt =====
-- internal/handler/payment_handler.go
use mkwanja_payment_service.Prelude.{String, List, none, map, is_empty, if◌then◌else◌}
use mkwanja_payment_service.Prelude.Int.{ℤ, pos, ltb_ℤ, wrap32}
use mkwanja_payment_service.Prelude.Result.{Result, ok, err}
use mkwanja_payment_service.Db.Models.{Payment}
use mkwanja_payment_service.Db.World.{Env}
use mkwanja_payment_service.Service.Requests.{
  InitiateStkPushRequest, InitiateB2cRequest, InitiateB2bRequest, InitiateStkPushResult,
  InitiateB2cResult, InitiateB2bResult,
}
use mkwanja_payment_service.Service.Initiate.StkPush
use mkwanja_payment_service.Service.Initiate.B2c
use mkwanja_payment_service.Service.Initiate.B2b
use mkwanja_payment_service.Service.Settle
use mkwanja_payment_service.Http.Messages.{
  Request, Locals, InitiateStkPushBody, InitiateB2cBody, InitiateB2bBody, query_int,
}
use mkwanja_payment_service.Http.Reply.{
  PaymentView, PaymentItem, Body, Reply, Handler, reply, refuse, parsed, respond, answered,
}
use mkwanja_payment_service.Http.Site.{Site}

abbrev pub stk_push_request : Locals → InitiateStkPushBody → InitiateStkPushRequest
stk_push_request l b = record {
  client_id = b.client_id;
  consumer_id = l.consumer_id;
  amount_cents = b.amount_cents;
  currency = b.currency;
  phone_number = b.phone_number;
  reference = b.reference;
  description = b.description;
  idempotency_key = l.idempotency_key;
}

abbrev pub b2c_request : Locals → InitiateB2cBody → InitiateB2cRequest
b2c_request l b = record {
  client_id = b.client_id;
  consumer_id = l.consumer_id;
  amount_cents = b.amount_cents;
  currency = b.currency;
  phone_number = b.phone_number;
  reference = b.reference;
  description = b.description;
  idempotency_key = l.idempotency_key;
  command_id = b.command_id;
  remarks = b.remarks;
  occasion = b.occasion;
}

abbrev pub b2b_request : Locals → InitiateB2bBody → InitiateB2bRequest
b2b_request l b = record {
  client_id = b.client_id;
  consumer_id = l.consumer_id;
  amount_cents = b.amount_cents;
  currency = b.currency;
  receiver_shortcode = b.receiver_shortcode;
  reference = b.reference;
  description = b.description;
  idempotency_key = l.idempotency_key;
  command_id = b.command_id;
  sender_id_type = b.sender_id_type;
  receiver_id_type = b.receiver_id_type;
  remarks = b.remarks;
}

abbrev pub payment_view : Payment → PaymentView
payment_view p = record {
  id = p.id;
  client_id = p.client_id;
  idempotency_key = p.idempotency_key;
  provider = p.provider;
  payment_type = p.payment_type;
  direction = p.direction;
  status = p.status;
  amount_cents = p.amount_cents;
  currency = p.currency;
  phone_number = p.phone_number;
  reference = p.reference;
  description = p.description;
  provider_request_id = p.provider_request_id;
  provider_tx_id = p.provider_tx_id;
  provider_receipt = p.provider_receipt;
  created_at = p.created_at;
  updated_at = p.updated_at;
  completed_at = p.completed_at;
}

abbrev pub payment_item : Payment → PaymentItem
payment_item p = record {
  id = p.id;
  client_id = p.client_id;
  provider = p.provider;
  payment_type = p.payment_type;
  status = p.status;
  amount_cents = p.amount_cents;
  currency = p.currency;
  reference = p.reference;
  created_at = p.created_at;
}

-- limit := int32(c.QueryInt("limit", 20)), and its bounds
unfoldable pub limit_of : Request → ℤ
limit_of r =
    let limit = wrap32 (query_int r.limit (pos 20)) in
    if ltb_ℤ limit (pos 1) then pos 20 else if ltb_ℤ (pos 100) limit then pos 100 else limit

-- offset := int32(c.QueryInt("offset", 0)), and its bound
unfoldable pub offset_of : Request → ℤ
offset_of r =
    let offset = wrap32 (query_int r.offset (pos 0)) in
    if ltb_ℤ offset (pos 0) then pos 0 else offset

module _ (site : Site) (env : Env) where
  -- What each initiation answers: its error, or the payment.
  abbrev pub push_reply : Result InitiateStkPushResult → Reply
  push_reply (err e) = refuse 400 "INITIATION_FAILED" (site.describe e)
  push_reply (ok r) = record {
    status = 201;
    replayed = r.idempotency_replayed;
    body = Body.push r.payment_id r.checkout_request_id r.status;
    queued = none;
  }

  abbrev pub b2c_reply : Result InitiateB2cResult → Reply
  b2c_reply (err e) = refuse 400 "INITIATION_FAILED" (site.describe e)
  b2c_reply (ok r) = record {
    status = 201;
    replayed = r.idempotency_replayed;
    body = Body.transfer r.payment_id r.conversation_id r.originator_conv_id r.status;
    queued = none;
  }

  abbrev pub b2b_reply : Result InitiateB2bResult → Reply
  b2b_reply (err e) = refuse 400 "INITIATION_FAILED" (site.describe e)
  b2b_reply (ok r) = record {
    status = 201;
    replayed = r.idempotency_replayed;
    body = Body.transfer r.payment_id r.conversation_id r.originator_conv_id r.status;
    queued = none;
  }

  unfoldable pub initiate_stk_push : Locals → Request → Handler
  initiate_stk_push l r =
      parsed (site.parser.stk_push r.body) (λ b.
        respond (StkPush.initiate_stk_push env site.payments (stk_push_request l b)) push_reply)

  unfoldable pub initiate_b2c : Locals → Request → Handler
  initiate_b2c l r =
      parsed (site.parser.b2c r.body)
        (λ b. respond (B2c.initiate_b2c env site.payments (b2c_request l b)) b2c_reply)

  unfoldable pub initiate_b2b : Locals → Request → Handler
  initiate_b2b l r =
      parsed (site.parser.b2b r.body)
        (λ b. respond (B2b.initiate_b2b env site.payments (b2b_request l b)) b2b_reply)

  abbrev pub payment_reply : Result Payment → Reply
  payment_reply (err e) = refuse 404 "NOT_FOUND" "Payment not found"
  payment_reply (ok p) = reply 200 (Body.payment (payment_view p))

  unfoldable pub get_payment : String → Handler
  get_payment id =
      if is_empty id
      then answered (refuse 400 "INVALID_REQUEST" "Payment ID is required")
      else respond (Settle.get_payment env id) payment_reply

  abbrev pub payments_reply : ℤ → ℤ → Result (List Payment) → Reply
  payments_reply limit offset (err e) = refuse 500 "INTERNAL" "Failed to list payments"
  payments_reply limit offset (ok ps) = reply 200 (Body.payments (map payment_item ps) limit offset)

  unfoldable pub list_payments : Request → Handler
  unfolding limit_of offset_of
  list_payments r =
      if is_empty r.client_id
      then answered (refuse 400 "INVALID_REQUEST" "client_id query parameter is required")
      else respond (Settle.list_payments env r.client_id (limit_of r) (offset_of r))
          (payments_reply (limit_of r) (offset_of r))
