-- ===== src/Crypto.antt =====
-- internal/crypto/credentials.go: AES-256-GCM with the nonce in front, in base64. The cipher, the
-- encodings and the source of random bytes are Go's, and parameters here.
pub mod RoundTrip
use mkwanja_payment_service.Prelude.{
  ℕ, String, Bool, not, List, ◌++◌, Option, none, some, length, take, drop, ltb, ◌==◌,
  if◌then◌else◌,
}
use mkwanja_payment_service.Prelude.Result.{Result, ok, err, msg}

-- What Go's crypto/aes, crypto/cipher, encoding/base64 and encoding/hex offer the service.
pub record Primitives : Type 0 where
  -- whether `aes.NewCipher` and `cipher.NewGCM` take a key
  pub key_ok : List ℕ → Bool
  pub nonce_size : ℕ
  -- `gcm.Seal(nil, nonce, plaintext, nil)` and `gcm.Open(nil, nonce, box, nil)` under a key
  pub seal : List ℕ → List ℕ → List ℕ → List ℕ
  pub unseal : List ℕ → List ℕ → List ℕ → Option (List ℕ)
  pub encode : List ℕ → String
  pub decode : String → Option (List ℕ)
  pub hex_decode : String → Option (List ℕ)
  -- `[]byte(s)` and `string(b)`
  pub to_bytes : String → List ℕ
  pub of_bytes : List ℕ → String

-- `Encrypt`, for the bytes that `io.ReadFull(rand.Reader, nonce)` brought, or for its failure.
unfoldable pub encrypt : Primitives → Option (List ℕ) → List ℕ → String → Result String
encrypt c drawn key plaintext = if not (c.key_ok key) then err (msg "new cipher") else elim drawn [
  | none ↦ err (msg "generate nonce")
  | some nonce ↦ ok (c.encode (nonce ++ c.seal key nonce (c.to_bytes plaintext)))
]

-- The part of `Decrypt` after the base64 text is decoded.
unfoldable pub open_box : Primitives → List ℕ → List ℕ → Result String
open_box c key box =
    if not (c.key_ok key)
    then err (msg "new cipher")
    else if ltb (length box) c.nonce_size
    then err (msg "ciphertext too short")
    else elim (c.unseal key (take c.nonce_size box) (drop c.nonce_size box)) [
      | none ↦ err (msg "decrypt")
      | some plaintext ↦ ok (c.of_bytes plaintext)
    ]

unfoldable pub decrypt : Primitives → List ℕ → String → Result String
unfolding open_box
decrypt c key encoded = elim (c.decode encoded) [
  | none ↦ err (msg "base64 decode")
  | some box ↦ open_box c key box
]

unfoldable pub parse_hex_key : Primitives → String → Result (List ℕ)
parse_hex_key c hex_key = elim (c.hex_decode hex_key) [
  | none ↦ err (msg "decode hex key")
  | some key ↦ if length key == 32 then ok key else err (msg "key must be 32 bytes (64 hex chars)")
]
