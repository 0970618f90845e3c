-- ===== src/Service/Settle/Ends.antt =====
-- The rows and the journal that `CompletePayment` and `FailPayment` of internal/service/payment_service.go leave.
use mkwanja_payment_service.Prelude.{
  ⊤, ◌+◌, String, ◌≡◌, refl, ap, ◌∙◌, true, false, List, [], ◌∷◌, none, some, find, str_eq, eq_iff,
  Bool-cases, Option-cases, ◌⊎◌, inl, inr, arith,
}
use mkwanja_payment_service.Prelude.Result.{Result, ok, succeeds}
use mkwanja_payment_service.Db.Models.{Payment, completed, failed, null_string}
use mkwanja_payment_service.Db.World.{World, Env}
use mkwanja_payment_service.Db.Action.{◌>>=◌, wrapped}
use mkwanja_payment_service.Db.Payments
use mkwanja_payment_service.Db.Payments.{has_id, set_where, as_completed, as_failed}
use mkwanja_payment_service.Db.Payments.Table.{IsUpdate, as_completed-IsUpdate, as_failed-IsUpdate}
use mkwanja_payment_service.Repository.PaymentRepo
use mkwanja_payment_service.Service.Ledger.Entries.{booked, IsBooked}
use mkwanja_payment_service.Service.Settle.{write_entries, complete_payment, fail_payment}
use mkwanja_payment_service.Service.Settle.Outcome.{
  done, evented, complete_payment-runs, complete_payment-unknown, complete_payment-found,
  event-journal, write_entries-IsBooked, fail_payment-found, fail_payment-unknown,
}
use mkwanja_payment_service.Service.Settle.Twice.{find-set_where}

-- A row and what became of it: the same payment.
abbrev pub IsSame : Payment → Payment → Type 0
IsSame p q =
    (q.id ≡ p.id)
    × (q.client_id ≡ p.client_id)
    × (q.idempotency_key ≡ p.idempotency_key)
    × (q.amount_cents ≡ p.amount_cents)

-- Completed with this receipt and this id of the provider.
abbrev pub IsCompleted : String → String → Payment → Type 0
IsCompleted receipt tx q =
    (q.status ≡ completed)
    × (q.provider_receipt ≡ null_string receipt)
    × (q.provider_tx_id ≡ null_string tx)

-- The rows of the other ids are as before.
abbrev pub IsApart : String → List Payment → List Payment → Type 0
IsApart id ps qs = (d : String) → str_eq id d ≡ false → find (has_id d) qs ≡ find (has_id d) ps

-- An error before anything was written: the statement failed, or there is no such row.
abbrev pub IsRefused : Env → World → String → Result ⊤ × World → Type 0
IsRefused env w id (r, w') =
    (succeeds r ≡ false)
    × (w' ≡ record w { tick = w.tick + 1 })
    × ((env.fails w.tick ≡ true) ⊎ (find (has_id id) w.payments ≡ none))

set_where-IsApart :
    (change : Payment → Payment)
    → IsUpdate change
    → (id : String) (ps : List Payment) → IsApart id ps (set_where id change ps)
set_where-IsApart change u id [] d other = refl
set_where-IsApart change u id (p ∷ ps) d other = ground (
  arith,
  set_where-IsApart change u id ps d other,
  u.id p,
  eq_iff p.id id,
  eq_iff p.id d,
  eq_iff id d,
  other,
)

module _ (env : Env) (w : World) (id : String) where
  complete_payment-fails :
      (receipt tx : String)
      → env.fails w.tick ≡ true
      → (succeeds (complete_payment env id receipt tx w).0 ≡ false)
        × ((complete_payment env id receipt tx w).1 ≡ record w { tick = w.tick + 1 })
  unfolding complete_payment ◌>>=◌ PaymentRepo.complete_payment Payments.complete_payment wrapped
  complete_payment-fails receipt tx down = ground arith

  fail_payment-fails :
      (reason : String)
      → env.fails w.tick ≡ true
      → (succeeds (fail_payment env id reason w).0 ≡ false)
        × ((fail_payment env id reason w).1 ≡ record w { tick = w.tick + 1 })
  unfolding fail_payment ◌>>=◌ PaymentRepo.fail_payment Payments.fail_payment wrapped
  fail_payment-fails reason down = ground arith

module _ (env : Env) (w : World) (id receipt tx : String) where
  -- What a completion writes to the journal, for the row that it made: the two entries of the payment, when
  -- the write of the entries reports no error, and nothing, when it reports one.
  abbrev pub IsWritten : Payment → Payment → World → Type 0
  IsWritten p q w' =
      let v = evented env w id receipt tx p in
      let r = (write_entries env q p.direction v).0 in
      ((succeeds r ≡ true) × (w'.journal ≡ booked env q p.direction v))
      ⊎ ((succeeds r ≡ false) × (w'.journal ≡ w.journal))

  written-as :
      (p : Payment) (out : Result ⊤ × World)
      → IsBooked env (done env w id receipt tx p) p.direction (evented env w id receipt tx p) out
      → ((succeeds out.0 ≡ true)
          × (out.1.journal
              ≡ booked env
                  (done env w id receipt tx p)
                  p.direction
                  (evented env w id receipt tx p)))
        ⊎ ((succeeds out.0 ≡ false) × (out.1.journal ≡ w.journal))
  written-as p out (inl (ok_so, e)) = inl (ok_so, e)
  written-as p out (inr (failed_so, e)) = inr (failed_so, e ∙ event-journal env w id receipt tx p)

  -- The completion of a row that is there, when the UPDATE does not fail.
  pub complete_payment-IsCompleted :
      (p : Payment)
      → find (has_id id) w.payments ≡ some p
      → env.fails w.tick ≡ false
      → let (r, w') = complete_payment env id receipt tx w in
        (r ≡ ok tt)
        × ((q : Payment) × (find (has_id id) w'.payments ≡ some q)
            × IsSame p q
            × IsCompleted receipt tx q
            × IsApart id w.payments w'.payments
            × IsWritten p q w')
  complete_payment-IsCompleted p found up =
      let change = as_completed (env.now (w.tick + 1)) (null_string receipt) (null_string tx) in
      let u = as_completed-IsUpdate (env.now (w.tick + 1)) (null_string receipt) (null_string tx) in
      let (fine, rows, books) = complete_payment-found env w id receipt tx p found up in
      let row = done env w id receipt tx p in
      let v = evented env w id receipt tx p in
      (
        fine,
        (
          row,
          ap (find (has_id id)) rows ∙ find-set_where change u id w.payments p found,
          (refl, refl, refl, refl),
          (refl, refl, refl),
          (λ d other. ap (find (has_id d)) rows ∙ set_where-IsApart change u id w.payments d other),
          rw (complete_payment-runs env w id receipt tx p found up) (
              written-as p (write_entries env row p.direction v)
                (write_entries-IsBooked env v row p.direction v)),
        ),
      )

  -- A completion that returns an error has changed nothing but the count of statements, and the UPDATE failed or
  -- there is no row with the id. Otherwise, whatever the status of the row was: it is completed, with the receipt
  -- and the provider's id that were given, and is the same payment; the rows of other ids are as before; and the
  -- journal has the two entries of the payment in front, unless the write of the entries reports an error, and
  -- then it is as before.
  pub complete_payment-ends :
      let (r, w') = complete_payment env id receipt tx w in
      IsRefused env w id (r, w')
      ⊎ ((r ≡ ok tt)
          × ((p : Payment) × (q : Payment) × (find (has_id id) w.payments ≡ some p)
              × (find (has_id id) w'.payments ≡ some q)
              × IsSame p q
              × IsCompleted receipt tx q
              × IsApart id w.payments w'.payments
              × IsWritten p q w'))
  complete_payment-ends = elim (Bool-cases (env.fails w.tick)) [
    | inl down ↦
        let (fails, same) = complete_payment-fails env w id receipt tx down in
        inl (fails, same, inl down)
    | inr up ↦ elim (Option-cases (find (has_id id) w.payments)) [
      | inl missing ↦
          let (fails, same) = complete_payment-unknown env w id receipt tx missing in
          inl (fails, same, inr missing)
      | inr (p, found) ↦
          let (fine, (q, here, same, done_so, apart, books)) =
            complete_payment-IsCompleted p found up in
          inr (fine, (p, q, found, here, same, done_so, apart, books))
    ]
  ]

-- A reported failure for a row that is there, when the UPDATE does not fail.
pub fail_payment-IsFailed :
    (env : Env) (w : World) (id reason : String) (p : Payment)
    → find (has_id id) w.payments ≡ some p
    → env.fails w.tick ≡ false
    → let (r, w') = fail_payment env id reason w in
      (r ≡ ok tt)
      × ((q : Payment) × (find (has_id id) w'.payments ≡ some q)
          × IsSame p q
          × (q.status ≡ failed)
          × (q.provider_receipt ≡ p.provider_receipt)
          × IsApart id w.payments w'.payments
          × (w'.journal ≡ w.journal))
fail_payment-IsFailed env w id reason p found up =
    let change = as_failed (env.now (w.tick + 1)) in
    let u = as_failed-IsUpdate (env.now (w.tick + 1)) in
    let (fine, rows, books) = fail_payment-found env w id reason p found up in
    (
      fine,
      (
        change p,
        ap (find (has_id id)) rows ∙ find-set_where change u id w.payments p found,
        (refl, refl, refl, refl),
        refl,
        refl,
        (λ d other. ap (find (has_id d)) rows ∙ set_where-IsApart change u id w.payments d other),
        books,
      ),
    )

-- A reported failure that returns an error has changed nothing but the count of statements, and the UPDATE
-- failed or there is no row with the id. Otherwise the row is failed, whatever its status was, so also when it
-- was completed, and is the same payment with the receipt that it had; the rows of other ids and the journal,
-- with the entries of that payment, are as before.
pub fail_payment-ends :
    (env : Env) (w : World) (id reason : String)
    → let (r, w') = fail_payment env id reason w in
      IsRefused env w id (r, w')
      ⊎ ((r ≡ ok tt)
          × ((p : Payment) × (q : Payment) × (find (has_id id) w.payments ≡ some p)
              × (find (has_id id) w'.payments ≡ some q)
              × IsSame p q
              × (q.status ≡ failed)
              × (q.provider_receipt ≡ p.provider_receipt)
              × IsApart id w.payments w'.payments
              × (w'.journal ≡ w.journal)))
fail_payment-ends env w id reason = elim (Bool-cases (env.fails w.tick)) [
  | inl down ↦
      let (fails, same) = fail_payment-fails env w id reason down in inl (fails, same, inl down)
  | inr up ↦ elim (Option-cases (find (has_id id) w.payments)) [
    | inl missing ↦
        let (fails, same) = fail_payment-unknown env w id reason missing in
        inl (fails, same, inr missing)
    | inr (p, found) ↦
        let (fine, (q, here, same, status, receipt, apart, books)) =
          fail_payment-IsFailed env w id reason p found up in
        inr (fine, (p, q, found, here, same, status, receipt, apart, books))
  ]
]
