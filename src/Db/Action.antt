-- ===== src/Db/Action.antt =====
-- Code that talks to the world and may return an error. What was written before an error stays
-- written, so the world comes back beside the error too.
use mkwanja_payment_service.Prelude.{String, ◌+◌, if◌then◌else◌}
use mkwanja_payment_service.Prelude.Result.{Result, ok, err, Error, sql, unavailable, wrap_err}
use mkwanja_payment_service.Db.World.{World, Env}

abbrev pub Action : Type 0 → Type 0
Action A = World → Result A × World

module _ {A : Type 0} where
  unfoldable pub pure : A → Action A
  pure a w = (ok a, w)

  unfoldable pub raise : Error → Action A
  raise e w = (err e, w)

  unfoldable pub lift : Result A → Action A
  lift r w = (r, w)

  -- `x, err := m` where the code goes on whatever `err` is
  unfoldable pub attempt : Action A → Action (Result A)
  attempt m w = let (r, w') = m w in (ok r, w')

  -- `if err != nil { return fmt.Errorf(context + ": %w", err) }`
  unfoldable pub wrapped : String → Action A → Action A
  wrapped context m w = let (r, w') = m w in (wrap_err context r, w')

  -- One statement: it counts a tick, and runs unless the environment makes it fail.
  unfoldable pub statement : Env → Action A → Action A
  statement env body w =
      if env.fails w.tick
      then (err (sql unavailable), record w { tick = w.tick + 1 })
      else body (record w { tick = w.tick + 1 })

module _ {A : Type 0} where
  -- A statement that only reads.
  unfoldable pub query : Env → (World → Result A) → Action A
  unfolding statement
  query env read = statement env (λ w. (read w, w))

module _ {A B : Type 0} where
  abbrev pub continue : Result A → (A → Action B) → Action B
  continue (ok a) f w = f a w
  continue (err e) f w = (err e, w)

  infixl 5 ◌>>=◌ ◌>>◌
  unfoldable pub ◌>>=◌ : Action A → (A → Action B) → Action B
  unfolding pure raise lift attempt wrapped
  ◌>>=◌ m f w = let (r, w') = m w in continue r f w'

  abbrev pub ◌>>◌ : Action A → Action B → Action B
  m >> k = m >>= λ _. k
