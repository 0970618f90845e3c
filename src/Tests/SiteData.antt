-- ===== src/Tests/SiteData.antt =====
-- A provider of card payments, a cycle that comes late, and a site with one consumer.
use mkwanja_payment_service.Prelude.{
  ◌+◌, ◌*◌, String, true, [], ◌∷◌, none, some, refl, str_eq, if◌then◌else◌,
}
use mkwanja_payment_service.Prelude.Int.{pos}
use mkwanja_payment_service.Prelude.Result.{ok, err, msg}
use mkwanja_payment_service.Daraja.Messages.{DarajaClient, TransactionStatusResponse}
use mkwanja_payment_service.Paystack.Messages.{PaystackApi, Signing, WebhookEvent}
use mkwanja_payment_service.Config.{Surroundings, ConsumerConfig, new_consumer_registry}
use mkwanja_payment_service.Db.Models.{ClientPaystackCredential}
use mkwanja_payment_service.Db.World.{World, Env}
use mkwanja_payment_service.Service.Reconcile.{ReconciliationService, two_minutes, open_security}
use mkwanja_payment_service.Service.Paystack.{PaystackService}
use mkwanja_payment_service.Crypto.{decrypt}
use mkwanja_payment_service.Db.Action.{pure}
use mkwanja_payment_service.Service.Reconcile.Settles.{IsAnswered}
use mkwanja_payment_service.Http.Messages.{InitiateStkPushBody, Parser, Request}
use mkwanja_payment_service.Http.Site.{Site, Pool}
use mkwanja_payment_service.Tests.Data.{calm, busy, service, first_payment, credentials}

abbrev pub keys : ClientPaystackCredential
keys = record {
  id = "pk1";
  client_id = "c1";
  secret_key_encrypted = "sealed";
  public_key = "pk_live";
  is_active = true;
  created_at = 0;
}

-- The database with a payment and with keys for its client.
abbrev pub hooked : World
hooked = record busy { paystack_credentials = keys ∷ [] }

abbrev pub paid_event : WebhookEvent
paid_event = record {
  event = "charge.success";
  reference = "p1";
  status = "success";
  amount = pos 15000;
  currency = "KES";
  id = pos 7;
}

abbrev pub signing : Signing
signing = record { mac = λ key body. body; hex = λ bytes. "signature"; to_bytes = λ text. [] }

abbrev pub paystack_api : PaystackApi
paystack_api = record {
  initialize_transaction = λ n request. err (msg "refused");
  verify_transaction = λ n reference. err (msg "refused");
}

abbrev pub paystack_service : PaystackService
paystack_service = record {
  encrypt_key = [];
  build_client = λ key. paystack_api;
  signing = signing;
  parse = λ body. ok paid_event;
}

-- Four minutes after the first payment.
abbrev pub late : Env
late = record calm { now = λ n. n + 2 * two_minutes }

abbrev pub paid : TransactionStatusResponse
paid = record {
  response_code = "0";
  response_description = "";
  merchant_request_id = "m1";
  checkout_request_id = "ws_1";
  result_code = "0";
  result_desc = "";
  conversation_id = "co1";
  originator_conversation_id = "";
  receipt_no = "RCP1";
  transaction_amount = "150";
  transaction_date = "";
  transaction_status = "completed";
  reason_type = "";
}

abbrev pub knowing : DarajaClient
knowing = record {
  initiate_stk_push = λ n request. err (msg "refused");
  initiate_b2c = λ n request. err (msg "refused");
  initiate_b2b = λ n request. err (msg "refused");
  query_transaction_status = λ n request. ok paid;
}

abbrev pub knowing_reconciliation : ReconciliationService
knowing_reconciliation = record {
  encrypt_key = [];
  callback_url = "https://pay.example";
  build_client = λ key secret shortcode passkey. knowing;
}

pub first_payment-IsAnswered : IsAnswered late knowing_reconciliation "shopify" busy first_payment
unfolding decrypt open_security pure
first_payment-IsAnswered = record {
  creds = credentials;
  key = "hi";
  secret = "hi";
  passkey = "hi";
  security = "";
  answer = λ n. paid;
  active = refl;
  opens_key = refl;
  opens_secret = refl;
  opens_passkey = refl;
  opens_security = λ u. refl;
  answers = λ n. refl;
}

abbrev pub shopify : ConsumerConfig
shopify = record {
  id = "shopify";
  secret_hash = "hash of open";
  callback_url = "";
  database_url = "postgres://shopify";
}

abbrev pub os : Surroundings
os = record {
  environ = [];
  getenv = λ name. "";
  generate = λ secret. err (msg "no hash");
  compare = λ hash secret. str_eq secret "open";
}

abbrev pub push_body : InitiateStkPushBody
push_body = record {
  client_id = "c1";
  amount_cents = pos 15000;
  currency = "";
  phone_number = "0712345678";
  reference = "INV-1";
  description = "";
}

-- Only the body of a push is understood.
abbrev pub parser : Parser
parser = record {
  stk_push = λ body. ok push_body;
  b2c = λ body. err (msg "no JSON");
  b2b = λ body. err (msg "no JSON");
  client = λ body. err (msg "no JSON");
  test = λ body. err (msg "no JSON");
  update = λ body. err (msg "no JSON");
  keys = λ body. err (msg "no JSON");
  charge = λ body. err (msg "no JSON");
}

abbrev pub site : Site
site = record {
  os = os;
  consumers = new_consumer_registry (shopify ∷ []);
  pools = λ id. if str_eq id "shopify" then Pool.this else Pool.missing;
  parser = parser;
  describe = λ e. "error";
  is_uuid = λ key. str_eq key "k2";
  payments = service;
  paystack = paystack_service;
  encrypt_key = [];
  operator_client_id = "";
  has_enqueuer = true;
  redis_ping = ok tt;
  db_pings = [];
}

-- A request with the key `k2`, and with a limit that no int32 holds.
abbrev pub request : String → Request
request secret = record {
  consumer_id = "shopify";
  service_secret = secret;
  idempotency_key = "k2";
  signature = "signature";
  client_id = "c1";
  limit = some (pos 4294967295);
  offset = none;
  body = [];
}
