-- ===== src/Daraja/Client/Tokens.antt =====
-- The access token of the Daraja API and its cache (internal/daraja/auth.go).
use mkwanja_payment_service.Prelude.{
  String, ◌≡◌, true, false, Option, none, some, find, str_eq, is_empty,
}
use mkwanja_payment_service.Daraja.Client.{Transport, Client, Net, token_cache_key}

abbrev value_of : Option (String × String) → Option String
value_of none = none
value_of (some e) = some e.1

module _ (t : Transport) (c : Client) (caches : c.has_cache ≡ true) (token : String) where
  -- The token that was returned is in the cache.
  abbrev IsCached : Net → Type 0
  IsCached n =
      (value_of (find (λ (e : String × String). str_eq e.0 (token_cache_key c)) n.tokens)
        ≡ some token)
      × (is_empty token ≡ false)
