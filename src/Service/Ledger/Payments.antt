-- ===== src/Service/Ledger/Payments.antt =====
-- The journal's operations of internal/service/journal_service.go, and the tables payments and
-- journal_accounts.
use mkwanja_payment_service.Prelude.{◌+◌, ◌≡◌, refl, List, [], ◌∷◌, arith}
use mkwanja_payment_service.Prelude.Result.{Result}
use mkwanja_payment_service.Db.Models.{ClientCredential, Payment, JournalAccount}
use mkwanja_payment_service.Daraja.Messages.{Sent}
use mkwanja_payment_service.Db.World.{World, Env}
use mkwanja_payment_service.Db.Action.{Action, pure, ◌>>=◌, wrapped}
use mkwanja_payment_service.Db.Keeps.{
  Keeps, IsTimeless, Keeps-statement, Keeps-bind, Keeps-wrapped, Keeps-pure, keeps_rules,
}
use mkwanja_payment_service.Db.Journal.{
  CreateJournalEntryParams, insert_entry, create_journal_entry,
}
use mkwanja_payment_service.Repository.JournalRepo.{
  nothing, finish, in_transaction, insert_all, create_journal_entry_bulk,
}
use mkwanja_payment_service.Service.Ledger.{
  write_balanced_entries, write_inbound_entries, write_outbound_entries,
}

module _ (R : List Payment → List JournalAccount → List ClientCredential → List Sent → Type 0) where
  -- A predicate of three tables and of the requests, as an invariant.
  abbrev pub Table : World → Type 0
  Table w = R w.payments w.accounts w.credentials w.sent

  pub Table-IsTimeless : IsTimeless Table
  Table-IsTimeless = record { at = λ w n h. h }

-- The entries of the journal send nothing.
module _ (env : Env) where
  create_journal_entry-quiet :
      (e : CreateJournalEntryParams) (w : World) → (create_journal_entry env e w).1.sent ≡ w.sent
  unfolding create_journal_entry insert_entry
  create_journal_entry-quiet e w = ground arith

  insert_all-quiet :
      (es : List CreateJournalEntryParams) (w : World) → (insert_all env es w).1.sent ≡ w.sent
  unfolding insert_all wrapped ◌>>=◌ pure
  insert_all-quiet [] w = refl
  insert_all-quiet (e ∷ es) w =
      let (r, w') = create_journal_entry env e w in
      ground (arith, create_journal_entry-quiet e w, insert_all-quiet es w')

module _ (R : List Payment → List JournalAccount → List ClientCredential → List Sent → Type 0)
    (env : Env) where
  nothing-Keeps : Keeps (Table R) nothing
  nothing-Keeps = record { at = λ w h. h }

  insert_entry-Keeps : (e : CreateJournalEntryParams) → Keeps (Table R) (insert_entry env e)
  unfolding insert_entry
  insert_entry-Keeps e = record { at = λ w h. ground arith }

  create_journal_entry-Keeps :
      (e : CreateJournalEntryParams) → Keeps (Table R) (create_journal_entry env e)
  unfolding create_journal_entry
  create_journal_entry-Keeps e =
      Keeps-statement env (insert_entry env e) (Table-IsTimeless R) (insert_entry-Keeps e)

  insert_all-Keeps : (es : List CreateJournalEntryParams) → Keeps (Table R) (insert_all env es)
  unfolding insert_all
  insert_all-Keeps [] = record { at = λ w h. h }
  insert_all-Keeps (e ∷ es) =
      Keeps-bind (wrapped "create journal entry in bulk" (create_journal_entry env e))
        (λ j. insert_all env es >>= λ js. pure (j ∷ js))
        (Keeps-wrapped _ (create_journal_entry env e) (create_journal_entry-Keeps e))
        (λ j.
          Keeps-bind (insert_all env es) (λ js. pure (j ∷ js)) (insert_all-Keeps es)
            (λ js. Keeps-pure (j ∷ js)))

  module _ {A : Type 0} where
    -- A rollback brings back the tables and not the requests.
    finish-Table :
        (before : World) (r : Result A) (w : World)
        → w.sent ≡ before.sent
        → R before.payments before.accounts before.credentials before.sent
        → R w.payments w.accounts w.credentials w.sent
        → let w' = (finish env before r w).1 in R w'.payments w'.accounts w'.credentials w'.sent
    unfolding finish
    finish-Table before r w quiet b h =
        let back : R before.payments before.accounts before.credentials w.sent = rw quiet b in
        ground (arith, back)

    in_transaction-Keeps :
        (body : Action A)
        → ((w : World) → (body w).1.sent ≡ w.sent)
        → Keeps (Table R) body
        → Keeps (Table R) (in_transaction env body)
    unfolding in_transaction
    in_transaction-Keeps body quiet k = record {
      at = λ w h.
          let began : World = record w { tick = w.tick + 1 } in
          ground
            (arith, finish-Table w (body began).0 (body began).1 (quiet began) h (k.at began h));
    }

  create_journal_entry_bulk-Keeps :
      (es : List CreateJournalEntryParams) → Keeps (Table R) (create_journal_entry_bulk env es)
  unfolding create_journal_entry_bulk
  create_journal_entry_bulk-Keeps es =
      in_transaction-Keeps (insert_all env es) (insert_all-quiet env es) (insert_all-Keeps es)

  write_balanced_entries-Keeps :
      (es : List CreateJournalEntryParams) → Keeps (Table R) (write_balanced_entries env es)
  unfolding write_balanced_entries
  write_balanced_entries-Keeps es = search (keeps_rules, create_journal_entry_bulk-Keeps) depth 7

  pub write_inbound_entries-Keeps : (p : Payment) → Keeps (Table R) (write_inbound_entries env p)
  unfolding write_inbound_entries
  write_inbound_entries-Keeps p = write_balanced_entries-Keeps _

  pub write_outbound_entries-Keeps : (p : Payment) → Keeps (Table R) (write_outbound_entries env p)
  unfolding write_outbound_entries
  write_outbound_entries-Keeps p = write_balanced_entries-Keeps _
