-- ===== src/Service/Ledger/Entries.antt =====
-- The entries of a settled payment (internal/service/journal_service.go): the balance check, how they are
-- written, and the balance of the journal.
use mkwanja_payment_service.Prelude.{
  ⊤, ℕ, ◌+◌, String, ◌≡◌, refl, true, false, List, [], ◌∷◌, map, ◌<>◌, ◌⊎◌, inl, inr, arith,
}
use mkwanja_payment_service.Prelude.Result.{Result, ok, succeeds}
use mkwanja_payment_service.Db.Models.{
  Payment, Journal, PaymentDirection, inbound, outbound, EntryType, type_text,
}
use mkwanja_payment_service.Db.World.{World, Env}
use mkwanja_payment_service.Db.Action.{◌>>=◌}
use mkwanja_payment_service.Db.Journal.{CreateJournalEntryParams, entry_row, may_enter}
use mkwanja_payment_service.Db.Journal.Balance.{IsBalanced, pair-IsBalanced}
use mkwanja_payment_service.Domain.Ledger.{verify_balance}
use mkwanja_payment_service.Domain.Ledger.Sound.{verify_balance_iff}
use mkwanja_payment_service.Repository.JournalRepo.Atomic.{
  pair_rows, create_journal_entry_bulk-pair, create_journal_entry_bulk-succeeds,
}
use mkwanja_payment_service.Service.Ledger.{
  entry, domain_entry, inbound_entries, outbound_entries, write_balanced_entries,
  write_inbound_entries, write_outbound_entries,
}

-- A debit and a credit of one payment, whatever its amount, pass the check.
verify_balance-pair :
    (p : Payment) (a b s t : String)
    → verify_balance
        (map domain_entry (entry p a EntryType.debit s ∷ entry p b EntryType.credit t ∷ []))
      ≡ ok tt
verify_balance-pair p a b s t = (verify_balance_iff _).1 refl

module _ (env : Env) (p : Payment) (a b s t : String) (w : World) where
  abbrev debit : CreateJournalEntryParams
  debit = entry p a EntryType.debit s

  abbrev credit : CreateJournalEntryParams
  credit = entry p b EntryType.credit t

  write_balanced_entries-pair :
      let (r, w') = write_balanced_entries env (debit ∷ credit ∷ []) w in
      ((succeeds r ≡ true) × (w'.journal ≡ pair_rows env debit credit w))
      ⊎ ((succeeds r ≡ false) × (w'.journal ≡ w.journal))
  unfolding write_balanced_entries ◌>>=◌
  write_balanced_entries-pair =
      rw (verify_balance-pair p a b s t)
        (ground (arith, create_journal_entry_bulk-pair env debit credit w))

  write_balanced_entries-succeeds :
      ((n : ℕ) → env.fails n ≡ false)
      → may_enter debit w ≡ true
      → may_enter credit w ≡ true
      → succeeds (write_balanced_entries env (debit ∷ credit ∷ []) w).0 ≡ true
  unfolding write_balanced_entries ◌>>=◌
  write_balanced_entries-succeeds up hd hc =
      rw (verify_balance-pair p a b s t)
        (ground (arith, create_journal_entry_bulk-succeeds env debit credit w up refl hd hc))

-- The entries that a payment is booked by, in the order in which they are written.
abbrev pub debit_entry : Payment → PaymentDirection → CreateJournalEntryParams
debit_entry p inbound =
    entry p "mpesa.till" EntryType.debit ("Inbound payment via " <> type_text p.payment_type)
debit_entry p outbound =
    entry p "expense.operations" EntryType.debit
      ("Outbound payment via " <> type_text p.payment_type)

abbrev pub credit_entry : Payment → PaymentDirection → CreateJournalEntryParams
credit_entry p inbound =
    entry p "revenue.sales" EntryType.credit ("Sales revenue for payment " <> p.id)
credit_entry p outbound =
    entry p "mpesa.till" EntryType.credit ("Till outbound for payment " <> p.id)

-- The journal with a payment booked in front.
abbrev pub booked : Env → Payment → PaymentDirection → World → List Journal
booked env p d w = pair_rows env (debit_entry p d) (credit_entry p d) w

-- A payment is booked whole, exactly when no error is reported, or not at all.
abbrev pub IsBooked : Env → Payment → PaymentDirection → World → Result ⊤ × World → Type 0
IsBooked env p d w (r, w') =
    ((succeeds r ≡ true) × (w'.journal ≡ booked env p d w))
    ⊎ ((succeeds r ≡ false) × (w'.journal ≡ w.journal))

pub write_inbound_entries-IsBooked :
    (env : Env) (p : Payment) (w : World) → IsBooked env p inbound w (write_inbound_entries env p w)
unfolding write_inbound_entries inbound_entries
write_inbound_entries-IsBooked env p w = write_balanced_entries-pair env p _ _ _ _ w

pub write_outbound_entries-IsBooked :
    (env : Env) (p : Payment) (w : World)
    → IsBooked env p outbound w (write_outbound_entries env p w)
unfolding write_outbound_entries outbound_entries
write_outbound_entries-IsBooked env p w = write_balanced_entries-pair env p _ _ _ _ w

module _ (env : Env) (p : Payment) (w : World) (up : (n : ℕ) → env.fails n ≡ false) where
  pub write_inbound_entries-succeeds :
      may_enter (debit_entry p inbound) w ≡ true
      → may_enter (credit_entry p inbound) w ≡ true
      → succeeds (write_inbound_entries env p w).0 ≡ true
  unfolding write_inbound_entries inbound_entries
  write_inbound_entries-succeeds hd hc = write_balanced_entries-succeeds env p _ _ _ _ w up hd hc

  pub write_outbound_entries-succeeds :
      may_enter (debit_entry p outbound) w ≡ true
      → may_enter (credit_entry p outbound) w ≡ true
      → succeeds (write_outbound_entries env p w).0 ≡ true
  unfolding write_outbound_entries outbound_entries
  write_outbound_entries-succeeds hd hc = write_balanced_entries-succeeds env p _ _ _ _ w up hd hc

booked-IsBalanced :
    (env : Env) (p : Payment) (d : PaymentDirection) (w : World)
    → IsBalanced w.journal
    → IsBalanced (booked env p d w)
booked-IsBalanced env p inbound w h =
    pair-IsBalanced (entry_row env (debit_entry p inbound) w.journal_seq (w.tick + 2))
      (entry_row env (credit_entry p inbound) (w.journal_seq + 1) (w.tick + 3)) w.journal refl refl
      refl refl refl h
booked-IsBalanced env p outbound w h =
    pair-IsBalanced (entry_row env (debit_entry p outbound) w.journal_seq (w.tick + 2))
      (entry_row env (credit_entry p outbound) (w.journal_seq + 1) (w.tick + 3)) w.journal refl refl
      refl refl refl h

-- A booking keeps the journal balanced.
pub IsBooked-IsBalanced :
    (env : Env) (p : Payment) (d : PaymentDirection) (w : World) (out : Result ⊤ × World)
    → IsBooked env p d w out
    → IsBalanced w.journal
    → IsBalanced out.1.journal
IsBooked-IsBalanced env p d w (r, w') (inl (done, e)) h = rw e (booked-IsBalanced env p d w h)
IsBooked-IsBalanced env p d w (r, w') (inr (failed, e)) h = rw e h
