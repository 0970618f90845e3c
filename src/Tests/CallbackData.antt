-- ===== src/Tests/CallbackData.antt =====
-- The callback of a push and its JSON.
use mkwanja_payment_service.Prelude.{[], ◌∷◌}
use mkwanja_payment_service.Prelude.Int.{ℤ, pos}
use mkwanja_payment_service.Prelude.Result.{ok, err, msg}
use mkwanja_payment_service.Queue.Worker.{AnyValue, StkCallback, StkWebhookPayload}
use mkwanja_payment_service.Queue.Tasks.{Decoder}

abbrev pub callback : ℤ → StkCallback
callback result_code = record {
  checkout_request_id = "ws_1";
  result_code = result_code;
  result_desc = "cancelled";
  items = record { name = "MpesaReceiptNumber"; value = AnyValue.text "RCP1" } ∷ [];
}

abbrev pub arrived : StkWebhookPayload
arrived = record { consumer_id = "shopify"; checkout_request_id = ""; raw_body = "{}" }

-- JSON of the callback of success.
abbrev pub decoder : Decoder
decoder = record {
  stk = record { payload = λ task. ok (arrived); callback = λ body. ok (callback (pos 0)) };
  b2c = λ task. err (msg "no JSON");
  b2b = λ task. err (msg "no JSON");
}
