-- ===== src/Tests/Transport.antt =====
-- The access token of the Daraja API, at a concrete network.
use mkwanja_payment_service.Prelude.{true, false, []}
use mkwanja_payment_service.Prelude.Result.{ok, err, msg}
use mkwanja_payment_service.Daraja.Client.{Transport, Client, Net, HttpResponse, get_or_fetch_token}
use mkwanja_payment_service.Daraja.Client.Tokens

abbrev answer : HttpResponse
answer = record { status = 200; body = "{}" }

-- Every exchange is answered with a token, and the cache is up.
abbrev network : Transport
network = record {
  exchange = λ n r. ok answer;
  cache_fails = λ n. false;
  access_token = λ s. ok "token";
  basic = λ k s. k;
  base64 = λ s. s;
  timestamp = λ n. "20260101000000";
  stk_body = λ r. ok "{}";
  b2c_body = λ r. ok "{}";
  b2b_body = λ r. ok "{}";
  status_body = λ r. ok "{}";
  c2b_body = λ r. ok "{}";
  stk_response = λ s. err (msg "");
  b2c_response = λ s. err (msg "");
  b2b_response = λ s. err (msg "");
  status_response = λ s. err (msg "");
  c2b_response = λ s. err (msg "");
}

abbrev client : Client
client = record {
  base_url = "https://api.safaricom.co.ke";
  consumer_key = "key";
  consumer_secret = "secret";
  shortcode = "600000";
  passkey = "passkey";
  has_cache = true;
}

abbrev quiet : Net
quiet = record { tick = 0; tokens = []; requests = [] }

abbrev asked : Net
asked = (get_or_fetch_token network client quiet).1
