-- ===== src/Crypto/RoundTrip.antt =====
-- `Encrypt` and `Decrypt` of internal/crypto/credentials.go, one after the other, given what Go documents of
-- its packages.
use mkwanja_payment_service.Prelude.{
  ℕ, String, ◌≡◌, true, false, List, [], ◌∷◌, ◌++◌, some, arith, length, take, drop, ltb,
}
use mkwanja_payment_service.Prelude.Result.{ok}
use mkwanja_payment_service.Crypto.{Primitives, encrypt, decrypt, open_box}

take-append : (xs ys : List ℕ) → take (length xs) (xs ++ ys) ≡ xs
take-append [] ys = ground arith
take-append (x ∷ xs) ys = ground (arith, take-append xs ys)

drop-append : (xs ys : List ℕ) → drop (length xs) (xs ++ ys) ≡ ys
drop-append [] ys = ground arith
drop-append (x ∷ xs) ys = ground (arith, drop-append xs ys)

ltb-append : (xs ys : List ℕ) → ltb (length (xs ++ ys)) (length xs) ≡ false
ltb-append [] ys = ground arith
ltb-append (x ∷ xs) ys = ground (arith, ltb-append xs ys)

module _ (c : Primitives) (key nonce : List ℕ) (plaintext : String) where
  -- What leaves the cipher for this nonce and plaintext: the nonce, and the box.
  abbrev pub sealed : List ℕ
  sealed = nonce ++ c.seal key nonce (c.to_bytes plaintext)

  open_box-sealed :
      length nonce ≡ c.nonce_size
      → c.key_ok key ≡ true
      → c.unseal key nonce (c.seal key nonce (c.to_bytes plaintext)) ≡ some (c.to_bytes plaintext)
      → c.of_bytes (c.to_bytes plaintext) ≡ plaintext
      → open_box c key sealed ≡ ok plaintext
  unfolding open_box
  open_box-sealed size key_ok opens text = simp (
    key_ok,
    ← size,
    ltb-append nonce (c.seal key nonce (c.to_bytes plaintext)),
    take-append nonce (c.seal key nonce (c.to_bytes plaintext)),
    drop-append nonce (c.seal key nonce (c.to_bytes plaintext)),
    opens,
    text,
  )

  -- Encryption with a nonce of the cipher's size and a key that the cipher takes succeeds, and
  -- decryption of its result gives the plaintext back, provided that for these inputs `Open` undoes
  -- `Seal`, the base64 decoder undoes the encoder, and the conversion to bytes loses nothing.
  pub decrypt-encrypt :
      length nonce ≡ c.nonce_size
      → c.key_ok key ≡ true
      → c.unseal key nonce (c.seal key nonce (c.to_bytes plaintext)) ≡ some (c.to_bytes plaintext)
      → c.decode (c.encode sealed) ≡ some sealed
      → c.of_bytes (c.to_bytes plaintext) ≡ plaintext
      → (encrypt c (some nonce) key plaintext ≡ ok (c.encode sealed))
        × (decrypt c key (c.encode sealed) ≡ ok plaintext)
  unfolding encrypt decrypt
  decrypt-encrypt size key_ok opens decodes text =
      (simp key_ok, simp (decrypt, decodes, open_box-sealed size key_ok opens text))
