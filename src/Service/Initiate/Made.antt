-- ===== src/Service/Initiate/Made.antt =====
-- What an initiation that returns no error leaves in the table payments and in the record of requests: the
-- rules for internal/service/payment_service.go and internal/service/paystack_service.go.
pub mod Kinds
use mkwanja_payment_service.Prelude.{
  ℕ, ◌+◌, String, ◌≡◌, refl, false, true, List, [], ◌∷◌, Option, none, some, find, any, eq_iff,
  arith, ◌⊎◌, inl, inr, Bool-cases,
}
use mkwanja_payment_service.Prelude.Result.{Result, ok, err}
use mkwanja_payment_service.Db.Models.{Payment}
use mkwanja_payment_service.Db.World.{World, Env}
use mkwanja_payment_service.Db.Action.{
  Action, pure, raise, attempt, wrapped, statement, query, continue, ◌>>=◌,
}
use mkwanja_payment_service.Db.Keeps.{Keeps, Keeps-query}
use mkwanja_payment_service.Db.Payments
use mkwanja_payment_service.Db.Payments.{has_id, set_where, update_payment, with_request_id}
use mkwanja_payment_service.Repository.PaymentRepo
use mkwanja_payment_service.Daraja.Messages.{Sent}
use mkwanja_payment_service.Service.Preserved.Backs.{is_row_of}
use mkwanja_payment_service.Service.Initiate.Common.{failing, or_fail, call}

-- From `P`, whatever the action returns, `Q` holds of it and of the world.
pub record Gives {A : Type 0} (P : World → Type 0) (Q : A → World → Type 0) (m : Action A)
    : Type 0 where
  pub at : (w : World) (a : A) → P w → (m w).0 ≡ ok a → Q a (m w).1

module _ {A B : Type 0} {R : World → Type 0} {Q : B → World → Type 0} where
  continue-gives :
      (r : Result A) (f : A → Action B) (w : World) (b : B)
      → ((a : A) → r ≡ ok a → R w)
      → ((a : A) → Gives R Q (f a))
      → (continue r f w).0 ≡ ok b
      → Q b (continue r f w).1
  continue-gives (ok a) f w b mid gives h = (gives a).at w b (mid a refl) h
  continue-gives (err e) f w b mid gives h = ground (arith, h)

module _ {A B : Type 0} {P R : World → Type 0} {Q : B → World → Type 0} where
  pub Gives-bind :
      (m : Action A) (f : A → Action B)
      → Gives P (λ a w. R w) m
      → ((a : A) → Gives R Q (f a))
      → Gives P Q (m >>= f)
  unfolding ◌>>=◌
  Gives-bind m f km kf = record {
    at = λ w b p h. continue-gives (m w).0 f (m w).1 b (λ a e. km.at w a p e) kf h;
  }

module _ {A : Type 0} (Q : A → World → Type 0) (env : Env) (id context : String) where
  failing-gives :
      (r : Result A) (w : World) (a : A)
      → ((b : A) → r ≡ ok b → Q b w)
      → (failing env id context r w).0 ≡ ok a
      → Q a (failing env id context r w).1
  unfolding failing pure raise attempt ◌>>=◌
  failing-gives (ok b) w a q h = ground (arith, h, q b refl)
  failing-gives (err e) w a q h = ground (arith, h)

module _ {A : Type 0} {P : World → Type 0} where
  pub Gives-Keeps : (m : Action A) → Keeps P m → Gives P (λ a w. P w) m
  Gives-Keeps m k = record { at = λ w a p h. k.at w p }

  module _ {Q : A → World → Type 0} (env : Env) (id context : String) where
    -- A step whose error fails the payment.
    pub Gives-or_fail : (step : Action A) → Gives P Q step → Gives P Q (or_fail env id context step)
    unfolding or_fail attempt ◌>>=◌
    Gives-or_fail step k = record {
      at =
          λ w a p h. failing-gives Q env id context (step w).0 (step w).1 a (λ b e. k.at w b p e) h;
    }

set_where-absent :
    (id : String) (change : Payment → Payment) (ps : List Payment)
    → any (has_id id) ps ≡ false
    → set_where id change ps ≡ ps
set_where-absent id change [] h = refl
set_where-absent id change (p ∷ ps) h =
    let away : has_id id p ≡ false = ground (arith, h) in
    let rest : any (has_id id) ps ≡ false = ground (arith, h) in
    rw (away, set_where-absent id change ps rest) refl

module _ (row : Payment) (old : List Payment) (sent : List Sent)
    (fresh : any (has_id row.id) old ≡ false) where
  -- The row is new and stands first, and nothing was sent yet.
  abbrev pub IsMade : World → Type 0
  IsMade w = (w.payments ≡ row ∷ old) × (w.sent ≡ sent)

  -- Then one request was sent, for what the row says.
  abbrev pub IsAsked : World → Type 0
  IsAsked w =
      (w.payments ≡ row ∷ old) × ((r : Sent) × (is_row_of r row ≡ true) × (w.sent ≡ r ∷ sent))

  -- And the row may have been given the id that the provider returned.
  abbrev pub IsDone : World → Type 0
  IsDone w =
      ((w.payments ≡ row ∷ old)
        ⊎ ((now : ℕ) × (id tx : Option String) × (w.payments
              ≡ with_request_id now id tx row ∷ old)))
      × ((r : Sent) × (is_row_of r row ≡ true) × (w.sent ≡ r ∷ sent))

  pub call-IsAsked :
      {A : Type 0} (answer : ℕ → Result A) (r : Sent)
      → is_row_of r row ≡ true
      → Gives IsMade (λ a. IsAsked) (call answer r)
  unfolding call
  call-IsAsked answer r asks = record {
    at = λ w a (rows, before) h. (rows, (r, asks, rw before refl));
  }

  pub query-IsMade :
      {A : Type 0} (env : Env) (read : World → Result A) → Keeps IsMade (query env read)
  query-IsMade env read = Keeps-query env read (record { at = λ w n h. h })

  pub update-IsDone :
      (env : Env) (id tx : Option String) (w : World)
      → IsAsked w
      → IsDone (PaymentRepo.update_provider_request_id env row.id id tx w).1
  unfolding PaymentRepo.update_provider_request_id Payments.update_provider_request_id wrapped
      statement
  update-IsDone env id tx w (rows, asked) =
      let same : has_id row.id row ≡ true = (eq_iff row.id row.id).1 refl in
      let found : find (has_id row.id) w.payments ≡ some row = rw (rows, same) refl in
      let now = env.now (w.tick + 1) in
      let rest = set_where-absent row.id (with_request_id now id tx) old fresh in
      elim (Bool-cases (env.fails w.tick)) [
        | inl down ↦ rw down (inl rows, asked)
        | inr up ↦
            rw (up, found, update_payment)
              (inr (now, id, tx, rw rows (rw (same, rest) refl)), asked)
      ]
