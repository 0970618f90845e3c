-- ===== src/Service/Initiate/Common.antt =====
-- What the three initiations share.
use mkwanja_payment_service.Prelude.{
  ⊤, ℕ, ◌+◌, String, ◌∷◌, Option, none, some, is_empty, if◌then◌else◌,
}
use mkwanja_payment_service.Prelude.Int.{ℤ, quot_ℤ}
use mkwanja_payment_service.Prelude.Decimal.{decimal_int}
use mkwanja_payment_service.Prelude.Result.{Result, ok, err, wrap}
use mkwanja_payment_service.Crypto.{decrypt}
use mkwanja_payment_service.Daraja.Messages.{DarajaClient, Sent}
use mkwanja_payment_service.Db.Models.{ClientCredential}
use mkwanja_payment_service.Db.World.{Env}
use mkwanja_payment_service.Db.Action.{Action, pure, raise, lift, attempt, statement, ◌>>=◌, ◌>>◌}
use mkwanja_payment_service.Repository.PaymentRepo
use mkwanja_payment_service.Service.Requests.{PaymentService}

-- `currency := req.Currency; if currency == "" { currency = "KES" }`, and the like
abbrev pub or_default : String → String → String
or_default s default = if is_empty s then default else s

-- fmt.Sprintf("%d", req.AmountCents / 100)
abbrev pub amount_kes : ℤ → String
amount_kes cents = decimal_int (quot_ℤ cents 100)

module _ (env : Env) where
  module _ {A : Type 0} (payment_id context : String) where
    -- `_, _ = s.paymentRepo.FailPayment(ctx, payment.ID); return nil, fmt.Errorf(context, err)`
    unfoldable pub failing : Result A → Action A
    failing (ok a) = pure a
    failing (err e) = do attempt (PaymentRepo.fail_payment env payment_id); raise (wrap context e)

    -- A step after which an error fails the payment.
    unfoldable pub or_fail : Action A → Action A
    unfolding failing
    or_fail step = do r ← attempt step; failing r

  module _ (s : PaymentService) where
    -- The Daraja client of a business, from its decrypted credentials.
    unfoldable pub daraja_client : String → ClientCredential → Action DarajaClient
    daraja_client payment_id creds = do
      key ←
          or_fail payment_id "decrypt consumer key"
            (lift (decrypt env.crypto s.encrypt_key creds.consumer_key_encrypted))
      secret ←
          or_fail payment_id "decrypt consumer secret"
            (lift (decrypt env.crypto s.encrypt_key creds.consumer_secret_encrypted))
      passkey ←
          or_fail payment_id "decrypt passkey"
            (lift (decrypt env.crypto s.encrypt_key creds.passkey_encrypted))
      pure (s.build_client key secret creds.shortcode passkey)

    unfoldable pub security_credential : String → Option String → Action String
    security_credential payment_id none = pure ""
    security_credential payment_id (some sealed) =
        if is_empty sealed
        then pure ""
        else or_fail payment_id "decrypt security credential"
            (lift (decrypt env.crypto s.encrypt_key sealed))

    -- rdb.Set(ctx, key, value, 30*time.Minute), whose error is logged; the expiry is an error of Get.
    unfoldable pub store_route : String → String → Action ⊤
    store_route key value =
        if s.has_redis
        then statement env (λ w. (ok tt, record w { routes = (key, value) ∷ w.routes }))
        else pure tt

-- A request handed to a provider: it is on record, and the answer may be anything.
unfoldable pub call : {A : Type 0} → (ℕ → Result A) → Sent → Action A
call answer request w = (answer w.tick, record w { tick = w.tick + 1; sent = request ∷ w.sent })
