-- ===== src/Daraja/Client.antt =====
-- internal/daraja: client.go, auth.go and redis_cache.go. The network, JSON, base64 and the clock are
-- parameters. The base URL is one that net/http can parse, so that a request can be built.
pub mod Tokens
pub mod Calls
use mkwanja_payment_service.Prelude.{
  ℕ, ◌+◌, String, Bool, not, List, ◌∷◌, Option, none, some, find, str_eq, ◌==◌, is_empty, ◌<>◌,
  if◌then◌else◌,
}
use mkwanja_payment_service.Prelude.Int.{pos}
use mkwanja_payment_service.Prelude.Decimal.{decimal_int}
use mkwanja_payment_service.Prelude.Result.{Result, ok, err, msg, wrap, wrap_err}
use mkwanja_payment_service.Daraja.Messages.{
  StkPushRequest, StkPushResponse, B2cRequest, B2cResponse, B2bRequest, B2bResponse,
  TransactionStatusRequest, TransactionStatusResponse,
}

pub record HttpRequest : Type 0 where
  pub url : String
  -- the credentials of a GET, or the bearer token of a POST
  pub authorization : String
  pub body : String

pub record HttpResponse : Type 0 where
  pub status : ℕ
  pub body : String

-- The tokens in the cache, the last one set first, and the requests sent, the last one first.
pub record Net : Type 0 where
  pub tick : ℕ
  pub tokens : List (String × String)
  pub requests : List HttpRequest

pub record C2bRegisterUrlRequest : Type 0 where
  pub short_code : String
  pub response_type : String
  pub confirmation_url : String
  pub validation_url : String

pub record C2bRegisterUrlResponse : Type 0 where
  pub conversation_id : String
  pub originator_coversation_id : String
  pub response_code : String
  pub response_description : String

-- What the client takes from outside; every exchange may fail.
pub record Transport : Type 0 where
  pub exchange : ℕ → HttpRequest → Result HttpResponse
  -- whether a command of the cache fails
  pub cache_fails : ℕ → Bool
  -- the field access_token of a body
  pub access_token : String → Result String
  -- the header of SetBasicAuth
  pub basic : String → String → String
  -- base64.StdEncoding
  pub base64 : String → String
  -- time.Now().Format("20060102150405")
  pub timestamp : ℕ → String
  -- json.Marshal
  pub stk_body : StkPushRequest → Result String
  pub b2c_body : B2cRequest → Result String
  pub b2b_body : B2bRequest → Result String
  pub status_body : TransactionStatusRequest → Result String
  pub c2b_body : C2bRegisterUrlRequest → Result String
  -- json.Unmarshal
  pub stk_response : String → Result StkPushResponse
  pub b2c_response : String → Result B2cResponse
  pub b2b_response : String → Result B2bResponse
  pub status_response : String → Result TransactionStatusResponse
  pub c2b_response : String → Result C2bRegisterUrlResponse

pub record Client : Type 0 where
  pub base_url : String
  pub consumer_key : String
  pub consumer_secret : String
  pub shortcode : String
  pub passkey : String
  -- cache != nil
  pub has_cache : Bool

unfoldable pub new_client : String → String → String → String → String → Bool → Client
new_client base_url key secret shortcode passkey has_cache = record {
  base_url = if is_empty base_url then "https://sandbox.safaricom.co.ke" else base_url;
  consumer_key = key;
  consumer_secret = secret;
  shortcode = shortcode;
  passkey = passkey;
  has_cache = has_cache;
}

abbrev pub token_cache_key : Client → String
token_cache_key c = "daraja_token:" <> c.consumer_key

abbrev pub NetAction : Type 0 → Type 0
NetAction A = Net → Result A × Net

-- The status of a response other than 200, as an error.
abbrev pub bad_status : String → HttpResponse → String
bad_status what r = what <> " returned status " <> decimal_int (pos r.status) <> ": " <> r.body

module _ (t : Transport) (c : Client) where
  -- One HTTP request: it is on record, and the answer may be anything.
  unfoldable pub send : HttpRequest → NetAction HttpResponse
  send request n =
      (t.exchange n.tick request, record n { tick = n.tick + 1; requests = request ∷ n.requests })

  -- The checks of `FetchOAuthToken` on a response.
  unfoldable pub token_of : Result HttpResponse → Result String
  token_of (err e) = err (wrap "oauth request failed" e)
  token_of (ok r) =
      if not (r.status == 200)
      then err (msg (bad_status "oauth request" r))
      else elim (t.access_token r.body) [
        | err e ↦ err (wrap "decode oauth response" e)
        | ok token ↦
            if is_empty token then err (msg "oauth response missing access_token") else ok token
      ]

  abbrev pub oauth_request : HttpRequest
  oauth_request = record {
    url = c.base_url <> "/oauth/v1/generate?grant_type=client_credentials";
    authorization = t.basic c.consumer_key c.consumer_secret;
    body = "";
  }

  unfoldable pub fetch_oauth_token : NetAction String
  unfolding send token_of
  fetch_oauth_token n = let (r, n') = send oauth_request n in (token_of r, n')

  -- cache.Get(ctx, key), where a key that is missing is an error
  unfoldable pub cached : NetAction String
  cached n = (
    (if t.cache_fails n.tick
        then err (msg "cache")
        else elim (find (λ (e : String × String). str_eq e.0 (token_cache_key c)) n.tokens) [
          | none ↦ err (msg "redis: nil")
          | some e ↦ ok e.1
        ]),
    record n { tick = n.tick + 1 },
  )

  -- cache.Set(ctx, key, token, tokenCacheTTL); the expiry is an error of a later Get
  unfoldable pub store_token : String → NetAction String
  store_token token n =
      if t.cache_fails n.tick
      then (err (wrap "cache token" (msg "cache")), record n { tick = n.tick + 1 })
      else (
        ok token,
        record n { tick = n.tick + 1; tokens = (token_cache_key c, token) ∷ n.tokens },
      )

  -- A new token, kept in the cache if there is one.
  unfoldable pub fetch_and_store : NetAction String
  unfolding fetch_oauth_token store_token
  fetch_and_store n =
      let (r, n') = fetch_oauth_token n in
      elim r [
        | err e ↦ (err e, n')
        | ok token ↦ if c.has_cache then store_token token n' else (ok token, n')
      ]

  unfoldable pub get_or_fetch_token : NetAction String
  unfolding cached fetch_and_store
  get_or_fetch_token n =
      if not c.has_cache
      then fetch_and_store n
      else let (r, n') = cached n in
        elim r [
          | err e ↦ fetch_and_store n'
          | ok token ↦ if is_empty token then fetch_and_store n' else (ok token, n')
        ]

  module _ {A : Type 0} where
    -- The checks of `postJSON` on a response.
    unfoldable pub decoded : (String → Result A) → Result HttpResponse → Result A
    decoded decode (err e) = err (wrap "request failed" e)
    decoded decode (ok r) =
        if not (r.status == 200)
        then err (msg (bad_status "request" r))
        else wrap_err "decode response" (decode r.body)

    unfoldable pub post_json : String → Result String → (String → Result A) → NetAction A
    unfolding get_or_fetch_token send decoded
    post_json path (err e) decode n = (err (wrap "marshal request" e), n)
    post_json path (ok payload) decode n =
        let (r, n') = get_or_fetch_token n in
        elim r [
          | err e ↦ (err (wrap "auth token" e), n')
          | ok token ↦
              let request : HttpRequest = record {
                url = c.base_url <> path;
                authorization = "Bearer " <> token;
                body = payload;
              } in
              let (r', n'') = send request n' in (decoded decode r', n'')
        ]

    -- `if err != nil { return nil, fmt.Errorf(context, err) }`
    abbrev pub in_context : String → NetAction A → NetAction A
    in_context context m n = let (r, n') = m n in (wrap_err context r, n')
