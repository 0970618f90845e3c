-- ===== src/Service/Settle/Books.antt =====
-- What `CompletePayment` of internal/service/payment_service.go books when no statement fails.
use mkwanja_payment_service.Prelude.{
  ⊤, ℕ, ◌+◌, String, ◌≡◌, refl, ◌∙◌, ap, true, false, List, [], ◌∷◌, some, find, any, inl, inr,
  arith, eq_iff,
}
use mkwanja_payment_service.Prelude.Int.{pos, ltb_ℤ}
use mkwanja_payment_service.Prelude.Result.{Result, ok, succeeds}
use mkwanja_payment_service.Db.Models.{
  Payment, JournalAccount, PaymentDirection, inbound, outbound, null_string,
}
use mkwanja_payment_service.Db.World.{World, Env}
use mkwanja_payment_service.Db.Action.{wrapped}
use mkwanja_payment_service.Db.Payments
use mkwanja_payment_service.Db.Payments.{has_id, as_completed}
use mkwanja_payment_service.Db.Payments.Table.{any-id-set_where, as_completed-IsUpdate}
use mkwanja_payment_service.Db.Journal.{may_enter, is_account}
use mkwanja_payment_service.Repository.PaymentRepo
use mkwanja_payment_service.Service.Ledger.Entries.{
  booked, IsBooked, debit_entry, credit_entry, write_inbound_entries-succeeds,
  write_outbound_entries-succeeds,
}
use mkwanja_payment_service.Service.Settle.{write_entries, complete_payment}
use mkwanja_payment_service.Service.Settle.Outcome.{
  done, evented, complete_payment-runs, event-payments, write_entries-IsBooked,
}

-- The accounts of the standard chart that the entries name.
abbrev pub IsChart : String → List JournalAccount → Type 0
IsChart client_id accounts =
    (any (is_account client_id "mpesa.till") accounts ≡ true)
    × (any (is_account client_id "revenue.sales") accounts ≡ true)
    × (any (is_account client_id "expense.operations") accounts ≡ true)

any-find :
    (id : String) (ps : List Payment) (p : Payment)
    → find (has_id id) ps ≡ some p
    → any (has_id p.id) ps ≡ true
any-find id [] p found = ground arith
any-find id (q ∷ ps) p found = ground (arith, eq_iff q.id id, eq_iff q.id q.id, any-find id ps p)

-- Both entries of a payment satisfy the constraints.
may_enter-entries :
    (p : Payment) (d : PaymentDirection) (w : World)
    → ltb_ℤ (pos 0) p.amount_cents ≡ true
    → any (has_id p.id) w.payments ≡ true
    → IsChart p.client_id w.accounts
    → (may_enter (debit_entry p d) w ≡ true) × (may_enter (credit_entry p d) w ≡ true)
may_enter-entries p inbound w amount row (till, sales, operations) =
    (simp (amount, row, till), simp (amount, row, sales))
may_enter-entries p outbound w amount row (till, sales, operations) =
    (simp (amount, row, operations), simp (amount, row, till))

write_entries-succeeds :
    (env : Env) (p : Payment) (d : PaymentDirection) (w : World)
    → ((n : ℕ) → env.fails n ≡ false)
    → may_enter (debit_entry p d) w ≡ true
    → may_enter (credit_entry p d) w ≡ true
    → succeeds (write_entries env p d w).0 ≡ true
unfolding write_entries
write_entries-succeeds env p inbound w up hd hc = write_inbound_entries-succeeds env p w up hd hc
write_entries-succeeds env p outbound w up hd hc = write_outbound_entries-succeeds env p w up hd hc

booked_if_succeeds :
    (env : Env) (p : Payment) (d : PaymentDirection) (w : World) (out : Result ⊤ × World)
    → IsBooked env p d w out
    → succeeds out.0 ≡ true
    → out.1.journal ≡ booked env p d w
booked_if_succeeds env p d w out (inl (written, e)) s = e
booked_if_succeeds env p d w out (inr (failed, e)) s = ground (arith, failed, s)

module _ (env : Env) (w : World) (id receipt tx : String) (p : Payment) where
  pub event-accounts :
      (client_id : String)
      → IsChart client_id w.accounts
      → IsChart client_id (evented env w id receipt tx p).accounts
  unfolding PaymentRepo.create_payment_event Payments.create_payment_event wrapped
  event-accounts client_id h = ground arith

  event-row :
      find (has_id id) w.payments ≡ some p
      → any (has_id p.id) (evented env w id receipt tx p).payments ≡ true
  event-row found =
      ap (any (has_id p.id)) (event-payments env w id receipt tx p)
      ∙ any-id-set_where _
          (as_completed-IsUpdate (env.now (w.tick + 1)) (null_string receipt) (null_string tx)) p.id
          id w.payments
      ∙ any-find id w.payments p found

  -- When no statement fails, the payment's amount is positive and its client has the standard accounts,
  -- a completion of a payment with any status returns no error and writes the payment's two entries.
  pub complete_payment-books :
      find (has_id id) w.payments ≡ some p
      → ((n : ℕ) → env.fails n ≡ false)
      → ltb_ℤ (pos 0) p.amount_cents ≡ true
      → IsChart p.client_id w.accounts
      → ((complete_payment env id receipt tx w).0 ≡ ok tt)
        × ((complete_payment env id receipt tx w).1.journal
            ≡ booked env (done env w id receipt tx p) p.direction (evented env w id receipt tx p))
  complete_payment-books found up amount accounts =
      let v = evented env w id receipt tx p in
      let q = done env w id receipt tx p in
      let may =
        may_enter-entries q p.direction v amount (event-row found)
          (event-accounts p.client_id accounts) in
      rw (complete_payment-runs env w id receipt tx p found (up w.tick)) (
        refl,
        booked_if_succeeds env q p.direction v (write_entries env q p.direction v)
            (write_entries-IsBooked env w q p.direction v)
            (write_entries-succeeds env q p.direction v up may.0 may.1),
      )
