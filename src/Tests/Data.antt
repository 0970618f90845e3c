-- ===== src/Tests/Data.antt =====
-- A small database, environments, and requests.
use mkwanja_payment_service.Prelude.{
  String, true, false, [], ◌∷◌, none, some, is_empty, if◌then◌else◌,
}
use mkwanja_payment_service.Prelude.Int.{pos}
use mkwanja_payment_service.Prelude.Result.{ok, err, msg}
use mkwanja_payment_service.Crypto.{Primitives}
use mkwanja_payment_service.Daraja.Messages.{DarajaClient}
use mkwanja_payment_service.Db.Models.{
  Client, Payment, PaymentType, ClientCredential, JournalAccount, AccountType, NormalBalance, mpesa,
  inbound, pending,
}
use mkwanja_payment_service.Db.World.{World, Env}
use mkwanja_payment_service.Service.Requests.{
  PaymentService, InitiateStkPushRequest, InitiateB2cRequest, InitiateB2bRequest,
}

-- A cipher that leaves its input as it is, and an encoder that knows one box.
abbrev pub plain : Primitives
plain = record {
  key_ok = λ key. true;
  nonce_size = 2;
  seal = λ key nonce text. text;
  unseal = λ key nonce box. some box;
  encode = λ box. "sealed";
  decode = λ text. if is_empty text then none else some (7 ∷ 8 ∷ 104 ∷ 105 ∷ []);
  hex_decode = λ text. none;
  to_bytes = λ text. 104 ∷ 105 ∷ [];
  of_bytes = λ bytes. "hi";
}

abbrev pub calm : Env
calm = record {
  fails = λ n. false;
  uuid = λ n. "p2";
  now = λ n. n;
  random = λ n. none;
  crypto = plain;
}

abbrev pub account : String → AccountType → NormalBalance → JournalAccount
account id account_type normal_balance = record {
  id = id;
  client_id = "c1";
  name = id;
  account_type = account_type;
  normal_balance = normal_balance;
  description = none;
  created_at = 0;
}

abbrev pub credentials : ClientCredential
credentials = record {
  id = "cc1";
  client_id = "c1";
  shortcode = "174379";
  consumer_key_encrypted = "sealed";
  consumer_secret_encrypted = "sealed";
  passkey_encrypted = "sealed";
  initiator_name = none;
  security_credential_encrypted = none;
  is_active = true;
  created_at = 0;
}

abbrev pub shop : Client
shop = record {
  id = "c1";
  external_id = "shop";
  name = "Shop";
  active = true;
  created_at = 0;
  updated_at = 0;
}

abbrev pub fresh : World
fresh = record {
  tick = 0;
  payments = [];
  events = [];
  event_seq = 1;
  journal = [];
  journal_seq = 1;
  accounts =
      account "mpesa.till" AccountType.asset NormalBalance.debit
      ∷ account "revenue.sales" AccountType.revenue NormalBalance.credit
      ∷ account "expense.operations" AccountType.expense NormalBalance.debit
      ∷ [];
  clients = shop ∷ [];
  credentials = credentials ∷ [];
  paystack_credentials = [];
  routes = [];
  sent = [];
}

abbrev pub first_payment : Payment
first_payment = record {
  id = "p1";
  client_id = "c1";
  idempotency_key = "k1";
  provider = mpesa;
  payment_type = PaymentType.stk_push;
  direction = inbound;
  status = pending;
  amount_cents = pos 15000;
  currency = "KES";
  phone_number = some "254712345678";
  receiver_shortcode = none;
  reference = "INV-1";
  description = none;
  provider_request_id = some "ws_1";
  provider_tx_id = none;
  provider_receipt = none;
  provider_raw = none;
  callback_delivered = false;
  metadata = none;
  created_at = 0;
  updated_at = 0;
  completed_at = none;
}

-- The database with one payment in it.
abbrev pub busy : World
busy = record fresh { payments = first_payment ∷ [] }

abbrev pub stk : InitiateStkPushRequest
stk = record {
  client_id = "c1";
  consumer_id = "shopify";
  amount_cents = pos 15000;
  currency = "";
  phone_number = "0712345678";
  reference = "INV-1";
  description = "";
  idempotency_key = "k1";
}

abbrev pub b2c : InitiateB2cRequest
b2c = record {
  client_id = "c1";
  consumer_id = "shopify";
  amount_cents = pos 15000;
  currency = "";
  phone_number = "+254712345678";
  reference = "INV-1";
  description = "";
  idempotency_key = "k1";
  command_id = "BusinessPayment";
  remarks = "";
  occasion = "";
}

abbrev pub b2b : InitiateB2bRequest
b2b = record {
  client_id = "c1";
  consumer_id = "shopify";
  amount_cents = pos 15000;
  currency = "";
  receiver_shortcode = "600000";
  reference = "INV-1";
  description = "";
  idempotency_key = "k1";
  command_id = "";
  sender_id_type = "";
  receiver_id_type = "";
  remarks = "";
}

-- A provider that takes every push and pays nobody.
abbrev pub provider : DarajaClient
provider = record {
  initiate_stk_push = λ n request. ok (record {
    merchant_request_id = "m1";
    checkout_request_id = "ws_1";
    response_code = "0";
    response_description = "";
    customer_message = "";
  });
  initiate_b2c = λ n request. err (msg "refused");
  initiate_b2b = λ n request. err (msg "refused");
  query_transaction_status = λ n request. err (msg "refused");
}

abbrev pub service : PaymentService
service = record {
  encrypt_key = [];
  callback_url = "https://pay.example";
  has_redis = true;
  build_client = λ key secret shortcode passkey. provider;
}
