-- ===== src/Service/Settle/Outcome.antt =====
-- What `CompletePayment` and `FailPayment` of internal/service/payment_service.go do on every branch.
use mkwanja_payment_service.Prelude.{
  ⊤, ◌+◌, String, ◌≡◌, refl, ◌∙◌, false, none, some, find, ◌⊎◌, inl, inr, arith,
}
use mkwanja_payment_service.Prelude.Result.{Result, ok, succeeds}
use mkwanja_payment_service.Db.Models.{Payment, PaymentDirection, inbound, outbound, null_string}
use mkwanja_payment_service.Db.World.{World, Env}
use mkwanja_payment_service.Db.Action.{◌>>=◌, wrapped}
use mkwanja_payment_service.Db.Payments
use mkwanja_payment_service.Db.Payments.{has_id, as_completed, as_failed, set_where, update_payment}
use mkwanja_payment_service.Repository.PaymentRepo
use mkwanja_payment_service.Service.Ledger.Payments.{
  write_inbound_entries-Keeps, write_outbound_entries-Keeps,
}
use mkwanja_payment_service.Service.Ledger.Entries.{
  booked, IsBooked, write_inbound_entries-IsBooked, write_outbound_entries-IsBooked,
}
use mkwanja_payment_service.Service.Settle.{
  completion_event, write_entries, complete_payment, fail_payment,
}

module _ (env : Env) (w : World) where
  -- An id that is in no row: an error, and nothing changes but the count of statements.
  pub complete_payment-unknown :
      (id receipt tx : String)
      → find (has_id id) w.payments ≡ none
      → (succeeds (complete_payment env id receipt tx w).0 ≡ false)
        × ((complete_payment env id receipt tx w).1 ≡ record w { tick = w.tick + 1 })
  unfolding complete_payment ◌>>=◌ PaymentRepo.complete_payment Payments.complete_payment
  complete_payment-unknown id receipt tx missing = ground arith

  pub write_entries-IsBooked :
      (p : Payment) (d : PaymentDirection) (v : World)
      → IsBooked env p d v (write_entries env p d v)
  unfolding write_entries
  write_entries-IsBooked p inbound v = write_inbound_entries-IsBooked env p v
  write_entries-IsBooked p outbound v = write_outbound_entries-IsBooked env p v

  module _ (id receipt tx : String) (p : Payment) where
    -- The row of the payment as the statement returns it, the world after that statement, and the world
    -- in which the entries are written.
    abbrev pub done : Payment
    done = as_completed (env.now (w.tick + 1)) (null_string receipt) (null_string tx) p

    abbrev pub marked : World
    marked = record w {
      tick = w.tick + 1;
      payments =
          set_where id (as_completed (env.now (w.tick + 1)) (null_string receipt) (null_string tx))
            w.payments;
    }

    abbrev pub evented : World
    evented = (PaymentRepo.create_payment_event env (completion_event id) marked).1

    marks :
        find (has_id id) w.payments ≡ some p
        → env.fails w.tick ≡ false
        → PaymentRepo.complete_payment env id (null_string receipt) (null_string tx) w
          ≡ (ok done, marked)
    unfolding PaymentRepo.complete_payment Payments.complete_payment wrapped
    marks found up = simp (up, update_payment, found)

    pub complete_payment-runs :
        find (has_id id) w.payments ≡ some p
        → env.fails w.tick ≡ false
        → complete_payment env id receipt tx w
          ≡ (ok tt, (write_entries env done p.direction evented).1)
    unfolding complete_payment ◌>>=◌
    complete_payment-runs found up = simp (marks found up)

    pub event-journal : evented.journal ≡ w.journal
    unfolding PaymentRepo.create_payment_event Payments.create_payment_event wrapped
    event-journal = ground arith

    pub event-payments : evented.payments ≡ marked.payments
    unfolding PaymentRepo.create_payment_event Payments.create_payment_event wrapped
    event-payments = ground arith

    event-credentials : evented.credentials ≡ w.credentials
    unfolding PaymentRepo.create_payment_event Payments.create_payment_event wrapped
    event-credentials = ground arith

    entries-credentials :
        (d : PaymentDirection) → (write_entries env done d evented).1.credentials ≡ w.credentials
    unfolding write_entries
    entries-credentials inbound =
        (write_inbound_entries-Keeps (λ ps accounts keys sent. keys ≡ w.credentials) env done).at
          evented event-credentials
    entries-credentials outbound =
        (write_outbound_entries-Keeps (λ ps accounts keys sent. keys ≡ w.credentials) env done).at
          evented event-credentials

    pub complete_payment-credentials :
        find (has_id id) w.payments ≡ some p
        → env.fails w.tick ≡ false
        → (complete_payment env id receipt tx w).1.credentials ≡ w.credentials
    complete_payment-credentials found up =
        rw (complete_payment-runs found up) (entries-credentials p.direction)

    entries-payments :
        (d : PaymentDirection) → (write_entries env done d evented).1.payments ≡ evented.payments
    unfolding write_entries
    entries-payments inbound =
        (write_inbound_entries-Keeps (λ ps accounts keys sent. ps ≡ evented.payments) env done).at
          evented refl
    entries-payments outbound =
        (write_outbound_entries-Keeps (λ ps accounts keys sent. ps ≡ evented.payments) env done).at
          evented refl

    entries-journal :
        (out : Result ⊤ × World)
        → IsBooked env done p.direction evented out
        → (out.1.journal ≡ booked env done p.direction evented) ⊎ (out.1.journal ≡ w.journal)
    entries-journal out (inl (written, e)) = inl e
    entries-journal out (inr (failed, e)) = inr (e ∙ event-journal)

    -- An id that is in a row, whatever the status of that row, when the UPDATE does not fail: the call
    -- returns no error, the row is completed and carries the receipt, and the journal has the two
    -- entries of the payment in front or is as before, if they could not be written.
    pub complete_payment-found :
        find (has_id id) w.payments ≡ some p
        → env.fails w.tick ≡ false
        → let (r, w') = complete_payment env id receipt tx w in
          (r ≡ ok tt)
          × (w'.payments ≡ marked.payments)
          × ((w'.journal ≡ booked env done p.direction evented) ⊎ (w'.journal ≡ w.journal))
    complete_payment-found found up = rw (complete_payment-runs found up) (
      refl,
      entries-payments p.direction ∙ event-payments,
      entries-journal (write_entries env done p.direction evented)
          (write_entries-IsBooked done p.direction evented),
    )

module _ (env : Env) (w : World) (id reason : String) where
  -- A failure reported for an id that is in no row is an error, and only the count of statements changes.
  pub fail_payment-unknown :
      find (has_id id) w.payments ≡ none
      → (succeeds (fail_payment env id reason w).0 ≡ false)
        × ((fail_payment env id reason w).1 ≡ record w { tick = w.tick + 1 })
  unfolding fail_payment ◌>>=◌ PaymentRepo.fail_payment Payments.fail_payment wrapped
  fail_payment-unknown missing = ground arith

  -- A failure reported for an id that is in a row, whatever the status of that row, marks the row as
  -- failed when the UPDATE does not fail, returns no error, and leaves the journal as it was.
  pub fail_payment-found :
      (p : Payment)
      → find (has_id id) w.payments ≡ some p
      → env.fails w.tick ≡ false
      → let (r, w') = fail_payment env id reason w in
        (r ≡ ok tt)
        × (w'.payments ≡ set_where id (as_failed (env.now (w.tick + 1))) w.payments)
        × (w'.journal ≡ w.journal)
  unfolding fail_payment ◌>>=◌ PaymentRepo.fail_payment Payments.fail_payment wrapped
      PaymentRepo.create_payment_event Payments.create_payment_event
  fail_payment-found p found up = ground arith

  pub fail_payment-credentials : (fail_payment env id reason w).1.credentials ≡ w.credentials
  unfolding fail_payment ◌>>=◌ PaymentRepo.fail_payment Payments.fail_payment wrapped
      PaymentRepo.create_payment_event Payments.create_payment_event update_payment
  fail_payment-credentials = ground arith
