-- ===== src/Db/Keeps.antt =====
-- Invariants of actions, with one rule for each way to build an action. A relation to the world
-- where a call began is an invariant too: `Keeps (R before)`.
use mkwanja_payment_service.Prelude.{
  ℕ, ◌≡◌, refl, Bool, true, false, ◌+◌, ◌⊎◌, inl, inr, arith, Bool-cases, if◌then◌else◌,
}
use mkwanja_payment_service.Prelude.Result.{Result, ok, err, Error, succeeds}
use mkwanja_payment_service.Db.World.{World, Env}
use mkwanja_payment_service.Db.Action.{
  Action, pure, raise, lift, attempt, wrapped, statement, query, continue, ◌>>=◌,
}

-- `m` keeps `P`, whether it returns or raises.
pub record Keeps {A : Type 0} (P : World → Type 0) (m : Action A) : Type 0 where
  pub at : (w : World) → P w → P (m w).1

-- `P` does not look at the count of statements.
pub record IsTimeless (P : World → Type 0) : Type 0 where
  pub at : (w : World) (n : ℕ) → P w → P (record w { tick = n })

module _ {A : Type 0} {P : World → Type 0} where
  pub Keeps-pure : (a : A) → Keeps P (pure a)
  unfolding pure
  Keeps-pure a = record { at = λ w h. h }

  pub Keeps-raise : (e : Error) → Keeps P (raise {A = A} e)
  unfolding raise
  Keeps-raise e = record { at = λ w h. h }

  pub Keeps-lift : (r : Result A) → Keeps P (lift r)
  unfolding lift
  Keeps-lift r = record { at = λ w h. h }

  pub Keeps-attempt : (m : Action A) → Keeps P m → Keeps P (attempt m)
  unfolding attempt
  Keeps-attempt m k = record { at = λ w h. k.at w h }

  pub Keeps-wrapped : (context : _) (m : Action A) → Keeps P m → Keeps P (wrapped context m)
  unfolding wrapped
  Keeps-wrapped context m k = record { at = λ w h. k.at w h }

  pub Keeps-if : (b : Bool) (m n : Action A) → Keeps P m → Keeps P n → Keeps P (if b then m else n)
  Keeps-if true m n km kn = km
  Keeps-if false m n km kn = kn

  pub Keeps-statement :
      (env : Env) (body : Action A) → IsTimeless P → Keeps P body → Keeps P (statement env body)
  unfolding statement
  Keeps-statement env body timeless k = record {
    at = λ w h. elim (Bool-cases (env.fails w.tick)) [
      | inl down ↦ rw down (timeless.at w (w.tick + 1) h)
      | inr up ↦ rw up (k.at (record w { tick = w.tick + 1 }) (timeless.at w (w.tick + 1) h))
    ];
  }

module _ {A : Type 0} {P : World → Type 0} where
  pub Keeps-query : (env : Env) (read : World → Result A) → IsTimeless P → Keeps P (query env read)
  unfolding query
  Keeps-query env read timeless =
      Keeps-statement env (λ w. (read w, w)) timeless (record { at = λ w h. h })

module _ {A B : Type 0} {P : World → Type 0} where
  Keeps-continue :
      (f : A → Action B) → ((a : A) → Keeps P (f a)) → (r : Result A) → Keeps P (continue r f)
  Keeps-continue f kf (ok a) = kf a
  Keeps-continue f kf (err e) = record { at = λ w h. h }

  pub Keeps-bind :
      (m : Action A) (f : A → Action B) → Keeps P m → ((a : A) → Keeps P (f a)) → Keeps P (m >>= f)
  unfolding ◌>>=◌
  Keeps-bind m f km kf = record {
    at = λ w h. let (r, w') = m w in (Keeps-continue f kf r).at w' (km.at w h);
  }

module _ {A B : Type 0} {P : World → Type 0} where
  -- A check, after which the rest knows its result.
  pub Keeps-check :
      (r : Result A) (f : A → Action B)
      → ((a : A) → r ≡ ok a → Keeps P (f a))
      → Keeps P (lift r >>= f)
  unfolding ◌>>=◌
  Keeps-check (ok a) f k = record { at = λ w h. (k a refl).at w h }
  Keeps-check (err e) f k = record { at = λ w h. h }

module _ {A B : Type 0} {P : World → Type 0} where
  know-continue :
      (r : Result A) (f : A → Action B) (w : World)
      → ((a : A) → r ≡ ok a → Keeps P (f a))
      → P w
      → P (continue r f w).1
  know-continue (ok a) f w kf h = (kf a refl).at w h
  know-continue (err e) f w kf h = h

  -- A step, after which the rest knows where its result is from.
  pub Keeps-know :
      (m : Action A) (f : A → Action B)
      → Keeps P m
      → ((w : World) → P w → (a : A) → (m w).0 ≡ ok a → Keeps P (f a))
      → Keeps P (m >>= f)
  unfolding ◌>>=◌
  Keeps-know m f km kf = record { at = λ w h. know-continue (m w).0 f (m w).1 (kf w h) (km.at w h) }

module _ {A B : Type 0} {P Q : World → Type 0} (weaken : (w : World) → Q w → P w) where
  then-continue :
      (f : A → Action B)
      → ((a : A) → Keeps Q (f a))
      → (r : Result A) (w : World) → ((succeeds r ≡ false) × P w) ⊎ Q w
      → P (continue r f w).1
  then-continue f kf (ok a) w (inl (raised, h)) = ground arith
  then-continue f kf (ok a) w (inr h) = weaken _ ((kf a).at w h)
  then-continue f kf (err e) w (inl (raised, h)) = h
  then-continue f kf (err e) w (inr h) = weaken w h

  -- A step that raises keeps `P`; if it returns then `Q` holds, which the rest keeps.
  pub Keeps-then :
      (m : Action A) (f : A → Action B)
      → ((w : World) → P w → ((succeeds (m w).0 ≡ false) × P (m w).1) ⊎ Q (m w).1)
      → ((a : A) → Keeps Q (f a))
      → Keeps P (m >>= f)
  unfolding ◌>>=◌
  Keeps-then m f first kf = record {
    at = λ w h. let (r, w') = m w in then-continue f kf r w' (first w h);
  }

pub ruleset keeps_rules =
    (Keeps-pure, Keeps-raise, Keeps-lift, Keeps-attempt, Keeps-wrapped, Keeps-if, Keeps-bind)
