-- ===== src/Repository/JournalRepo/Atomic.antt =====
-- The transaction of the bulk write of journal entries (internal/repository/journal_repo.go).
use mkwanja_payment_service.Prelude.{
  ℕ, ◌+◌, ◌≡◌, refl, true, false, List, [], ◌∷◌, none, ◌⊎◌, arith,
}
use mkwanja_payment_service.Prelude.Result.{succeeds}
use mkwanja_payment_service.Db.Models.{Journal}
use mkwanja_payment_service.Db.World.{World, Env}
use mkwanja_payment_service.Db.Action.{wrapped}
use mkwanja_payment_service.Db.Journal.{
  CreateJournalEntryParams, entry_row, may_enter, create_journal_entry,
}
use mkwanja_payment_service.Repository.JournalRepo.{
  in_transaction, insert_all, create_journal_entry_bulk,
}

-- The journal after every entry of a list is written, the last one first.
abbrev pub written : Env → List CreateJournalEntryParams → ℕ → ℕ → List Journal → List Journal
written env [] id tick js = js
written env (e ∷ es) id tick js = written env es (id + 1) (tick + 1) (entry_row env e id tick ∷ js)

module _ (env : Env) where
  -- What one insertion of the loop does: a row in front of the journal and the next tick, or no row.
  pub create_journal_entry-journal :
      (e : CreateJournalEntryParams) (w : World)
      → let (r, w') = create_journal_entry env e w in
        ((succeeds r ≡ true)
          × (w'.journal ≡ entry_row env e w.journal_seq (w.tick + 1) ∷ w.journal)
          × (w'.journal_seq ≡ w.journal_seq + 1)
          × (w'.tick ≡ w.tick + 1))
        ⊎ ((succeeds r ≡ false) × (w'.journal ≡ w.journal))
  unfolding create_journal_entry
  create_journal_entry-journal e w = ground arith

  abbrev pub pair_rows : CreateJournalEntryParams → CreateJournalEntryParams → World → List Journal
  pair_rows d c w =
      entry_row env c (w.journal_seq + 1) (w.tick + 3)
      ∷ entry_row env d w.journal_seq (w.tick + 2)
      ∷ w.journal

  -- Two entries are both written, exactly when the write reports no error, or neither is.
  pub create_journal_entry_bulk-pair :
      (d c : CreateJournalEntryParams) (w : World)
      → let (r, w') = create_journal_entry_bulk env (d ∷ c ∷ []) w in
        ((succeeds r ≡ true) × (w'.journal ≡ pair_rows d c w))
        ⊎ ((succeeds r ≡ false) × (w'.journal ≡ w.journal))
  unfolding create_journal_entry_bulk in_transaction insert_all wrapped create_journal_entry
  create_journal_entry_bulk-pair d c w = ground arith

  -- Two entries that the constraints let in are written when no statement fails.
  pub create_journal_entry_bulk-succeeds :
      (d c : CreateJournalEntryParams) (w : World)
      → ((n : ℕ) → env.fails n ≡ false)
      → c.reversal_of ≡ none
      → may_enter d w ≡ true
      → may_enter c w ≡ true
      → succeeds (create_journal_entry_bulk env (d ∷ c ∷ []) w).0 ≡ true
  unfolding create_journal_entry_bulk in_transaction insert_all wrapped create_journal_entry
  create_journal_entry_bulk-succeeds d c w up fresh hd hc =
      ground (arith, up w.tick, up (w.tick + 1), up (w.tick + 2), up (w.tick + 3))

  insert_all-journal :
      (es : List CreateJournalEntryParams) (w : World)
      → succeeds (insert_all env es w).0 ≡ true
      → (insert_all env es w).1.journal ≡ written env es w.journal_seq (w.tick + 1) w.journal
  unfolding insert_all wrapped create_journal_entry
  insert_all-journal [] w h = refl
  insert_all-journal (e ∷ es) w h =
      ground (arith, insert_all-journal es (create_journal_entry env e w).1)

  -- A bulk write that reports no error has written every entry, in order.
  pub create_journal_entry_bulk-written :
      (es : List CreateJournalEntryParams) (w : World)
      → let (r, w') = create_journal_entry_bulk env es w in
        ((succeeds r ≡ true) × (w'.journal ≡ written env es w.journal_seq (w.tick + 2) w.journal))
        ⊎ ((succeeds r ≡ false) × (w'.journal ≡ w.journal))
  unfolding create_journal_entry_bulk in_transaction
  create_journal_entry_bulk-written es w =
      ground (arith, insert_all-journal es (record w { tick = w.tick + 1 }))
