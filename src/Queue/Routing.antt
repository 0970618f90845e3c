-- ===== src/Queue/Routing.antt =====
-- The routing value that `InitiateSTKPush` stores (internal/service/payment_service.go) and that the worker
-- splits (internal/queue/worker.go).
use Prim.Native.Char.{code}
use text.Mathlib.TextLemmas.{nil-append, cons-append}
use mkwanja_payment_service.Prelude.Split.{cut, split_in_3}
use mkwanja_payment_service.Prelude.{
  String, ◌≡◌, refl, Bool, false, [], ◌∷◌, some, any, codes, ◌<>◌, ◌==◌, arith,
}
use mkwanja_payment_service.Service.Initiate.StkPush.{routing_value}

-- Whether a text has a colon.
abbrev pub has_colon : String → Bool
has_colon s = any (λ c. c == b':') (codes s)

cut-append : (s t : String) → has_colon s ≡ false → cut b':' (s <> ":" <> t) ≡ some (s, t)
unfolding cut
cut-append String.[] t h = rw (nil-append, cons-append, nil-append) refl
cut-append (String.◌∷◌ c s) t h =
    let here : (code c == b':') ≡ false = ground arith in
    let there : has_colon s ≡ false = ground arith in
    rw (cons-append) (simp (here, cut-append s t there))

-- The worker reads a routing value back as the consumer, the client and the payment that it was made
-- from, provided that the consumer and the client have no colon.
pub split_in_3-routing_value :
    (consumer_id client_id payment_id : String)
    → has_colon consumer_id ≡ false
    → has_colon client_id ≡ false
    → split_in_3 b':' (routing_value consumer_id client_id payment_id)
      ≡ consumer_id ∷ client_id ∷ payment_id ∷ []
unfolding split_in_3
split_in_3-routing_value consumer_id client_id payment_id hc hk = simp (
  split_in_3,
  cut-append consumer_id (client_id <> ":" <> payment_id) hc,
  cut-append client_id payment_id hk,
)
