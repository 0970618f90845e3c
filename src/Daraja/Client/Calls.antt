-- ===== src/Daraja/Client/Calls.antt =====
-- The calls of internal/daraja: stk.go, b2c.go, b2b.go, c2b.go and transaction_status.go.
use mkwanja_payment_service.Prelude.{ℕ, String, is_empty, ◌<>◌, if◌then◌else◌}
use mkwanja_payment_service.Daraja.Messages.{
  StkPushRequest, StkPushResponse, B2cRequest, B2cResponse, B2bRequest, B2bResponse,
  TransactionStatusRequest, TransactionStatusResponse,
}
use mkwanja_payment_service.Daraja.Client.{
  Transport, Client, NetAction, C2bRegisterUrlRequest, C2bRegisterUrlResponse, post_json,
  in_context,
}

module _ (t : Transport) (c : Client) where
  abbrev pub stk_password : String → String
  stk_password timestamp = t.base64 (c.shortcode <> c.passkey <> timestamp)

  abbrev pub or_text : String → String → String
  or_text s default = if is_empty s then default else s

  -- The fields that a push leaves empty.
  unfoldable pub completed_push : ℕ → StkPushRequest → StkPushRequest
  completed_push now r =
      let timestamp = or_text r.timestamp (t.timestamp now) in
      record r {
        business_short_code = or_text r.business_short_code c.shortcode;
        timestamp = timestamp;
        password = or_text r.password (stk_password timestamp);
        transaction_type = or_text r.transaction_type "CustomerPayBillOnline";
      }

  unfoldable pub initiate_stk_push : StkPushRequest → NetAction StkPushResponse
  unfolding post_json completed_push
  initiate_stk_push r n =
      in_context t c "stk push"
        (post_json t c "/mpesa/stkpush/v1/processrequest" (t.stk_body (completed_push n.tick r))
          t.stk_response)
        n

  unfoldable pub initiate_b2c : B2cRequest → NetAction B2cResponse
  unfolding post_json
  initiate_b2c r =
      in_context t c "b2c"
        (post_json t c "/mpesa/b2c/v3/paymentrequest" (t.b2c_body r) t.b2c_response)

  unfoldable pub initiate_b2b : B2bRequest → NetAction B2bResponse
  unfolding post_json
  initiate_b2b r =
      in_context t c "b2b"
        (post_json t c "/mpesa/b2b/v1/paymentrequest" (t.b2b_body r) t.b2b_response)

  unfoldable pub query_transaction_status :
      TransactionStatusRequest → NetAction TransactionStatusResponse
  unfolding post_json
  query_transaction_status r =
      in_context t c "query transaction status"
        (post_json t c "/mpesa/transactionstatus/v1/query" (t.status_body r) t.status_response)

  unfoldable pub register_c2b_urls : C2bRegisterUrlRequest → NetAction C2bRegisterUrlResponse
  unfolding post_json
  register_c2b_urls r =
      in_context t c "c2b register url"
        (post_json t c "/mpesa/c2b/v1/registerurl" (t.c2b_body r) t.c2b_response)
