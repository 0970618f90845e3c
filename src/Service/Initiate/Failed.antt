-- ===== src/Service/Initiate/Failed.antt =====
-- What an initiation that returns an error leaves in the table payments: the rules for
-- internal/service/payment_service.go and internal/service/paystack_service.go.
pub mod Kinds
use mkwanja_payment_service.Prelude.{
  ⊤, ℕ, ◌+◌, String, ◌≡◌, refl, false, true, List, [], ◌∷◌, Option, none, some, find, any, eq_iff,
  arith, is_empty, if◌then◌else◌, ◌⊎◌, inl, inr, Bool-cases, Bool,
}
use mkwanja_payment_service.Prelude.Result.{Result, ok, err, succeeds}
use mkwanja_payment_service.Db.Models.{Payment, ClientCredential}
use mkwanja_payment_service.Db.World.{World, Env}
use mkwanja_payment_service.Db.Action.{
  Action, pure, raise, lift, attempt, wrapped, statement, query, continue, ◌>>=◌,
}
use mkwanja_payment_service.Db.Keeps.{
  Keeps, IsTimeless, Keeps-query, Keeps-wrapped, Keeps-lift, Keeps-attempt,
}
use mkwanja_payment_service.Db.Payments
use mkwanja_payment_service.Db.Payments.{
  CreatePaymentParams, has_id, new_payment, insert_payment, set_where, update_payment, as_failed,
}
use mkwanja_payment_service.Repository.PaymentRepo
use mkwanja_payment_service.Daraja.Messages.{Sent}
use mkwanja_payment_service.Service.Initiate.Common.{failing, or_fail, call}

-- What holds after a result, by whether it is an error.
abbrev pub IsEnd : {A : Type 0} → (World → Type 0) → (World → Type 0) → Result A → World → Type 0
IsEnd Good Bad (ok a) w = Good w
IsEnd Good Bad (err e) w = Bad w

-- From `P`, the action returns with `Good` or raises with `Bad`.
pub record Ends {A : Type 0} (P Good Bad : World → Type 0) (m : Action A) : Type 0 where
  pub at : (w : World) → P w → IsEnd Good Bad (m w).0 (m w).1

module _ {A B : Type 0} {Q Good Bad : World → Type 0} where
  Ends-continue :
      (r : Result A) (f : A → Action B) (w : World)
      → ((a : A) → Ends Q Good Bad (f a))
      → IsEnd Q Bad r w
      → IsEnd Good Bad (continue r f w).0 (continue r f w).1
  Ends-continue (ok a) f w k h = (k a).at w h
  Ends-continue (err e) f w k h = h

  pub Ends-bind :
      {P : World → Type 0} (m : Action A) (f : A → Action B)
      → Ends P Q Bad m
      → ((a : A) → Ends Q Good Bad (f a))
      → Ends P Good Bad (m >>= f)
  unfolding ◌>>=◌
  Ends-bind m f km kf = record { at = λ w h. Ends-continue (m w).0 f (m w).1 kf (km.at w h) }

module _ {A : Type 0} {P Bad : World → Type 0} where
  -- A step that keeps `P`, when `P` is good enough for an error.
  pub Ends-Keeps : (m : Action A) → ((w : World) → P w → Bad w) → Keeps P m → Ends P P Bad m
  Ends-Keeps m weaken k = record { at = λ w h. either (m w).0 (m w).1 (k.at w h) }
    where
      either : (r : Result A) (w : World) → P w → IsEnd P Bad r w
      either (ok a) w h = h
      either (err e) w h = weaken w h

  pub Ends-pure : (a : A) → Ends P P Bad (pure a)
  unfolding pure
  Ends-pure a = record { at = λ w h. h }

module _ (env : Env) (calm : (n : ℕ) → env.fails n ≡ false) (row : Payment) (old : List Payment)
    (fresh : any (has_id row.id) old ≡ false) where
  -- The row stands first in the table, as it was made, or marked as failed.
  abbrev pub HasRow : World → Type 0
  HasRow w = w.payments ≡ row ∷ old

  abbrev pub HasFailed : World → Type 0
  HasFailed w = (t : ℕ) × (w.payments ≡ as_failed t row ∷ old)

  absent :
      (change : Payment → Payment) (ps : List Payment)
      → any (has_id row.id) ps ≡ false
      → set_where row.id change ps ≡ ps
  absent change [] h = refl
  absent change (p ∷ ps) h =
      let away : has_id row.id p ≡ false = ground arith in
      let rest : any (has_id row.id) ps ≡ false = ground arith in
      rw (away, absent change ps rest) refl

  fail_payment-HasFailed :
      (w : World) → HasRow w → HasFailed (PaymentRepo.fail_payment env row.id w).1
  unfolding PaymentRepo.fail_payment Payments.fail_payment wrapped
  fail_payment-HasFailed w h =
      let same : has_id row.id row ≡ true = (eq_iff row.id row.id).1 refl in
      let found : find (has_id row.id) w.payments ≡ some row = rw (h, same) refl in
      let rest = absent (as_failed (env.now (w.tick + 1))) old fresh in
      (env.now (w.tick + 1), rw (calm w.tick, found, update_payment) (rw h (rw (same, rest) refl)))

  module _ {A : Type 0} where
    failing-Ends :
        (context : String) (r : Result A)
        → Ends HasRow HasRow HasFailed (failing env row.id context r)
    unfolding failing attempt raise ◌>>=◌
    failing-Ends context (ok a) = Ends-pure a
    failing-Ends context (err e) = record { at = λ w h. fail_payment-HasFailed w h }

    -- A step whose error fails the payment.
    pub or_fail-Ends :
        (context : String) (step : Action A)
        → Keeps HasRow step
        → Ends HasRow HasRow HasFailed (or_fail env row.id context step)
    unfolding or_fail ◌>>=◌ attempt
    or_fail-Ends context step k = record {
      at = λ w h. (failing-Ends context (step w).0).at (step w).1 (k.at w h);
    }

  module _ {A B : Type 0} {Good : World → Type 0} where
    pub Ends-then :
        (m : Action A) (f : A → Action B)
        → Ends HasRow HasRow HasFailed m
        → ((a : A) → Ends HasRow Good HasFailed (f a))
        → Ends HasRow Good HasFailed (m >>= f)
    Ends-then m f km kf = Ends-bind m f km kf

  module _ {A : Type 0} where
    pub call-HasRow : (answer : ℕ → Result A) (r : Sent) → Keeps HasRow (call answer r)
    unfolding call
    call-HasRow answer r = record { at = λ w h. h }

    pub query-HasRow : (read : World → Result A) → Keeps HasRow (query env read)
    query-HasRow read = Keeps-query env read (record { at = λ w n h. h })
