-- ===== src/Paystack/Client.antt =====
-- internal/paystack/client.go: the client. The network and JSON are parameters. The base URL is one that
-- net/http can parse, so that a request can be built.
use mkwanja_payment_service.Prelude.{
  ℕ, ◌+◌, String, Bool, not, ◌||◌, List, ◌∷◌, Option, none, some, ltb, leb, is_empty, ◌<>◌,
  if◌then◌else◌,
}
use mkwanja_payment_service.Prelude.Int.{pos}
use mkwanja_payment_service.Prelude.Decimal.{decimal_int}
use mkwanja_payment_service.Prelude.Result.{Result, ok, err, msg, wrap, wrap_err}
use mkwanja_payment_service.Paystack.Messages.{
  InitializeTransactionRequest, InitializeTransactionData, VerifyTransactionData,
}

pub data HttpMethod : Type 0 where
  get : HttpMethod
  post : HttpMethod

pub record ApiRequest : Type 0 where
  pub method : HttpMethod
  pub url : String
  pub authorization : String
  pub body : Option String

pub record ApiResponse : Type 0 where
  pub status : ℕ
  pub body : String

-- The data stays JSON until the status is known.
pub record ApiEnvelope : Type 0 where
  pub status : Bool
  pub message : String
  pub data_text : String

-- What the client takes from outside; every exchange may fail.
pub record ApiTransport : Type 0 where
  pub exchange : ℕ → ApiRequest → Result ApiResponse
  pub encode : InitializeTransactionRequest → Result String
  pub envelope : String → Result ApiEnvelope
  pub initialized : String → Result InitializeTransactionData
  pub verified : String → Result VerifyTransactionData

pub record ApiClient : Type 0 where
  pub base_url : String
  pub secret_key : String

unfoldable pub new_api_client : String → String → ApiClient
new_api_client base_url secret_key = record {
  base_url = if is_empty base_url then "https://api.paystack.co" else base_url;
  secret_key = secret_key;
}

-- How many requests were sent before, and the requests, the last one first.
pub record ApiNet : Type 0 where
  pub tick : ℕ
  pub requests : List ApiRequest

module _ (t : ApiTransport) (c : ApiClient) where
  module _ {A : Type 0} (decode : String → Result A) where
    -- From the envelope of a response on.
    unfoldable pub opened : ℕ → ApiEnvelope → Result A
    opened code env =
        if ltb code 200 || leb 300 code || not env.status
        then err (msg ("paystack error (status " <> decimal_int (pos code) <> "): " <> env.message))
        else wrap_err "parse response data" (decode env.data_text)

    unfoldable pub received : Result ApiResponse → Result A
    unfolding opened
    received (err e) = err (wrap "paystack request" e)
    received (ok r) = elim (t.envelope r.body) [
      | err e ↦ err (wrap ("parse response (status " <> decimal_int (pos r.status) <> ")") e)
      | ok env ↦ opened r.status env
    ]

    -- `do`, for a body that is encoded already
    unfoldable pub do_request : HttpMethod → String → Option String → ApiNet → Result A × ApiNet
    unfolding received
    do_request method path body n =
        let request : ApiRequest = record {
          method = method;
          url = c.base_url <> path;
          authorization = "Bearer " <> c.secret_key;
          body = body;
        } in
        (
          received (t.exchange n.tick request),
          record n { tick = n.tick + 1; requests = request ∷ n.requests },
        )

  unfoldable pub initialize_transaction :
      InitializeTransactionRequest → ApiNet → Result InitializeTransactionData × ApiNet
  unfolding do_request
  initialize_transaction r n = elim (t.encode r) [
    | err e ↦ (err (wrap "marshal request" e), n)
    | ok body ↦ do_request t.initialized post "/transaction/initialize" (some body) n
  ]

  unfoldable pub verify_transaction : String → ApiNet → Result VerifyTransactionData × ApiNet
  unfolding do_request
  verify_transaction reference =
      do_request t.verified get ("/transaction/verify/" <> reference) none
