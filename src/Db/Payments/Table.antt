-- ===== src/Db/Payments/Table.antt =====
-- The invariant of the table payments, and what the statements keep of it.
use mkwanja_payment_service.Prelude.{
  ⊤, ℕ, String, Bool, ◌≡◌, refl, false, List, [], ◌∷◌, Option, inl, inr, find, any, arith,
  Bool-cases, Option-cases,
}
use mkwanja_payment_service.Prelude.Int.{pos, ◌≤ℤ◌}
use mkwanja_payment_service.Db.Models.{Payment, PaymentStatus}
use mkwanja_payment_service.Db.World.{World, Env}
use mkwanja_payment_service.Db.Keeps.{Keeps}
use mkwanja_payment_service.Db.Payments.{
  CreatePaymentParams, has_id, has_key, insert_payment, set_where, update_payment, as_completed,
  as_failed, with_status, with_request_id,
}

-- Every amount is positive, no two rows share an id, and no two share a client and its key.
abbrev pub IsTable : List Payment → Type 0
IsTable [] = ⊤
IsTable (p ∷ ps) =
    (pos 1 ≤ℤ p.amount_cents)
    × (any (has_id p.id) ps ≡ false)
    × (any (has_key p.client_id p.idempotency_key) ps ≡ false)
    × IsTable ps

-- A change of a row that leaves alone what the constraints are about.
pub record IsUpdate (change : Payment → Payment) : Type 0 where
  pub id : (p : Payment) → (change p).id ≡ p.id
  pub client_id : (p : Payment) → (change p).client_id ≡ p.client_id
  pub key : (p : Payment) → (change p).idempotency_key ≡ p.idempotency_key
  pub amount : (p : Payment) → (change p).amount_cents ≡ p.amount_cents
  pub type : (p : Payment) → (change p).payment_type ≡ p.payment_type
  pub phone : (p : Payment) → (change p).phone_number ≡ p.phone_number
  pub receiver : (p : Payment) → (change p).receiver_shortcode ≡ p.receiver_shortcode

pub as_completed-IsUpdate :
    (now : ℕ) (receipt tx : Option String) → IsUpdate (as_completed now receipt tx)
as_completed-IsUpdate now receipt tx = record {
  id = λ p. refl;
  client_id = λ p. refl;
  key = λ p. refl;
  amount = λ p. refl;
  type = λ p. refl;
  phone = λ p. refl;
  receiver = λ p. refl;
}

pub as_failed-IsUpdate : (now : ℕ) → IsUpdate (as_failed now)
as_failed-IsUpdate now = record {
  id = λ p. refl;
  client_id = λ p. refl;
  key = λ p. refl;
  amount = λ p. refl;
  type = λ p. refl;
  phone = λ p. refl;
  receiver = λ p. refl;
}

pub with_status-IsUpdate : (now : ℕ) (status : PaymentStatus) → IsUpdate (with_status now status)
with_status-IsUpdate now status = record {
  id = λ p. refl;
  client_id = λ p. refl;
  key = λ p. refl;
  amount = λ p. refl;
  type = λ p. refl;
  phone = λ p. refl;
  receiver = λ p. refl;
}

pub with_request_id-IsUpdate :
    (now : ℕ) (request tx : Option String) → IsUpdate (with_request_id now request tx)
with_request_id-IsUpdate now request tx = record {
  id = λ p. refl;
  client_id = λ p. refl;
  key = λ p. refl;
  amount = λ p. refl;
  type = λ p. refl;
  phone = λ p. refl;
  receiver = λ p. refl;
}

module _ (change : Payment → Payment) (u : IsUpdate change) where
  -- A test that the change does not alter.
  pub any-set_where :
      (test : Payment → Bool) (id : String) (ps : List Payment)
      → ((p : Payment) → test (change p) ≡ test p)
      → any test (set_where id change ps) ≡ any test ps
  any-set_where test id [] same = refl
  any-set_where test id (p ∷ ps) same = elim (Bool-cases (has_id id p)) [
    | inl here ↦ rw (here, same p, any-set_where test id ps same)
    | inr away ↦ rw (away, any-set_where test id ps same)
  ]

  pub any-id-set_where :
      (j id : String) (ps : List Payment)
      → any (has_id j) (set_where id change ps) ≡ any (has_id j) ps
  any-id-set_where j id ps = any-set_where (has_id j) id ps (λ p. rw (u.id p) refl)

  pub any-key-set_where :
      (c k id : String) (ps : List Payment)
      → any (has_key c k) (set_where id change ps) ≡ any (has_key c k) ps
  any-key-set_where c k id ps =
      any-set_where (has_key c k) id ps (λ p. rw (u.client_id p, u.key p) refl)

  pub set_where-IsTable :
      (id : String) (ps : List Payment) → IsTable ps → IsTable (set_where id change ps)
  set_where-IsTable id [] t = tt
  set_where-IsTable id (p ∷ ps) (amount, ids, keys, rest) = elim (Bool-cases (has_id id p)) [
    | inl here ↦ rw here (
      rw (u.amount p) amount,
      rw (u.id p, any-id-set_where p.id id ps) ids,
      rw (u.client_id p, u.key p, any-key-set_where p.client_id p.idempotency_key id ps) keys,
      set_where-IsTable id ps rest,
    )
    | inr away ↦ rw away (
      amount,
      rw (any-id-set_where p.id id ps) ids,
      rw (any-key-set_where p.client_id p.idempotency_key id ps) keys,
      set_where-IsTable id ps rest,
    )
  ]

abbrev pub HasTable : World → Type 0
HasTable w = IsTable w.payments

pub insert_payment-HasTable :
    (env : Env) (p : CreatePaymentParams) → Keeps HasTable (insert_payment env p)
unfolding insert_payment
insert_payment-HasTable env p = record { at = λ w t. ground arith }

pub update_payment-HasTable :
    (id : String) (change : Payment → Payment)
    → IsUpdate change
    → Keeps HasTable (update_payment id change)
unfolding update_payment
update_payment-HasTable id change u = record {
  at = λ w t. elim (Option-cases (find (has_id id) w.payments)) [
    | inl missing ↦ rw (missing, update_payment) t
    | inr (p, found) ↦ rw (found, update_payment) (set_where-IsTable change u id w.payments t)
  ];
}
