-- ===== src/Service/Clients/Update.antt =====
-- What `UpdateCredentials` of internal/service/client_service.go leaves behind, on success and on errors.
use mkwanja_payment_service.Prelude.{
  ⊤, ℕ, String, ◌≡◌, true, false, Option, List, ◌∷◌, ◌⊎◌, if◌then◌else◌, str_eq,
}
use mkwanja_payment_service.Prelude.Result.{Result, ok, succeeds}
use mkwanja_payment_service.Crypto.{encrypt}
use mkwanja_payment_service.Db.Models.{ClientCredential, null_string}
use mkwanja_payment_service.Db.World.{World, Env}
use mkwanja_payment_service.Db.Clients
use mkwanja_payment_service.Repository.ClientRepo
use mkwanja_payment_service.Service.Clients.{UpdateCredentialsRequest}

-- A row after a rotation of this client's credentials: its own rows are inactive.
abbrev pub retired : String → ClientCredential → ClientCredential
retired id c = if str_eq c.client_id id then record c { is_active = false } else c

module _ (env : Env) (key : List ℕ) (r : UpdateCredentialsRequest)
    (calm : (n : ℕ) → env.fails n ≡ false) where
  -- The text is the secret under the key.
  abbrev pub IsSealed : String → String → Type 0
  IsSealed secret text = (n : ℕ) × (encrypt env.crypto (env.random n) key secret ≡ ok text)

  -- The row holds what the request asks for, and is active.
  abbrev pub IsAsked : ClientCredential → Type 0
  IsAsked c =
      (c.is_active ≡ true)
      × (c.client_id ≡ r.client_id)
      × (c.shortcode ≡ r.shortcode)
      × IsSealed r.consumer_key c.consumer_key_encrypted
      × IsSealed r.consumer_secret c.consumer_secret_encrypted
      × IsSealed r.passkey c.passkey_encrypted

  -- A new row in front of these rows; or these rows alone, with an error, since the cipher sealed no text.
  abbrev pub IsRotated : List ClientCredential → Result ⊤ × World → Type 0
  IsRotated old out =
      ((out.0 ≡ ok tt) × ((c : ClientCredential) × IsAsked c × (out.1.credentials ≡ c ∷ old)))
      ⊎ ((succeeds out.0 ≡ false)
          × (out.1.credentials ≡ old)
          × ((n : ℕ) × (text : String) × (succeeds (encrypt env.crypto (env.random n) key text)
                ≡ false)))

  abbrev row_of : ℕ → String → String → String → Option String → ClientCredential
  row_of n k s p q = record {
    id = env.uuid n;
    client_id = r.client_id;
    shortcode = r.shortcode;
    consumer_key_encrypted = k;
    consumer_secret_encrypted = s;
    passkey_encrypted = p;
    initiator_name = null_string r.initiator_name;
    security_credential_encrypted = q;
    is_active = true;
    created_at = env.now n;
  }
