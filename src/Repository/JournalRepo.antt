-- ===== src/Repository/JournalRepo.antt =====
-- internal/repository/journal_repo.go
pub mod Atomic
use mkwanja_payment_service.Prelude.{String, List, [], ◌∷◌}
use mkwanja_payment_service.Prelude.Int.{ℤ}
use mkwanja_payment_service.Prelude.Result.{Result, ok, err, wrap}
use mkwanja_payment_service.Db.Models.{Journal, AccountBalance}
use mkwanja_payment_service.Db.World.{World, Env}
use mkwanja_payment_service.Db.Action.{Action, wrapped, pure, statement, ◌>>=◌}
use mkwanja_payment_service.Db.Journal
use mkwanja_payment_service.Db.Journal.{CreateJournalEntryParams}

-- `tx.Rollback()`: the tables are as before. Ticks and sequences do not go back, and what left the
-- database (routing keys, requests) is not touched.
abbrev pub rolled_back : World → World → World
rolled_back before after = record before {
  tick = after.tick;
  event_seq = after.event_seq;
  journal_seq = after.journal_seq;
  routes = after.routes;
  sent = after.sent;
}

abbrev pub nothing : Action Unit
nothing w = (ok tt, w)

-- The end of a transaction: a commit if the body returned, the deferred rollback if not.
unfoldable pub finish : {A : Type 0} → Env → World → Result A → Action A
unfolding statement
finish env before (err e) w = (err e, rolled_back before w)
finish env before (ok a) w =
    let (r, w') = statement env nothing w in
    elim r [
      | ok _ ↦ (ok a, w')
      | err e ↦ (err (wrap "commit journal bulk" e), rolled_back before w')
    ]

-- `BeginTx`, a body, and the end.
unfoldable pub in_transaction : {A : Type 0} → Env → Action A → Action A
unfolding statement finish
in_transaction env body w =
    let (r, w') = statement env nothing w in
    elim r [
      | err e ↦ (err (wrap "begin tx" e), w')
      | ok _ ↦ let (done, w'') = body w' in finish env w done w''
    ]

module _ (env : Env) where
  unfoldable pub create_journal_entry : CreateJournalEntryParams → Action Journal
  create_journal_entry e = wrapped "create journal entry" (Journal.create_journal_entry env e)

  -- The loop of `CreateJournalEntryBulk`.
  unfoldable pub insert_all : List CreateJournalEntryParams → Action (List Journal)
  unfolding ◌>>=◌
  insert_all [] = pure []
  insert_all (e ∷ es) = do
    j ← wrapped "create journal entry in bulk" (Journal.create_journal_entry env e)
    js ← insert_all es
    pure (j ∷ js)

  unfoldable pub create_journal_entry_bulk : List CreateJournalEntryParams → Action (List Journal)
  create_journal_entry_bulk entries = in_transaction env (insert_all entries)

  unfoldable pub list_journal_entries_by_client : String → ℤ → ℤ → Action (List Journal)
  list_journal_entries_by_client client_id limit offset =
      wrapped "list journal entries by client"
        (Journal.list_journal_entries_by_client env client_id limit offset)

  unfoldable pub list_journal_entries_by_payment : String → Action (List Journal)
  list_journal_entries_by_payment payment_id =
      wrapped "list journal entries by payment"
        (Journal.list_journal_entries_by_payment env payment_id)

  unfoldable pub get_account_balances : String → Action (List AccountBalance)
  get_account_balances client_id =
      wrapped "get account balances" (Journal.get_account_balances env client_id)

  unfoldable pub get_trial_balance : String → Action (List AccountBalance)
  get_trial_balance client_id =
      wrapped "get trial balance" (Journal.get_trial_balance env client_id)
