-- ===== src/Service/Ledger.antt =====
-- internal/service/journal_service.go: double-entry writes and reads.
pub mod Entries
pub mod Payments
use mkwanja_payment_service.Prelude.{⊤, String, List, [], ◌∷◌, map, none, ◌<>◌}
use mkwanja_payment_service.Prelude.Int.{ℤ}
use mkwanja_payment_service.Prelude.Result.{wrap_err}
use mkwanja_payment_service.Db.Models.{Payment, Journal, AccountBalance, EntryType, type_text}
use mkwanja_payment_service.Db.World.{Env}
use mkwanja_payment_service.Db.Action.{Action, pure, lift, wrapped, ◌>>◌}
use mkwanja_payment_service.Db.Journal.{CreateJournalEntryParams}
use mkwanja_payment_service.Domain.Ledger.{JournalEntry, verify_balance}
use mkwanja_payment_service.Repository.JournalRepo

-- The entry as the balance check reads it.
abbrev pub domain_entry : CreateJournalEntryParams → JournalEntry
domain_entry p = record {
  client_id = p.client_id;
  payment_id = p.payment_id;
  account_id = p.account_id;
  entry_type = p.entry_type;
  amount_cents = p.amount_cents;
  currency = p.currency;
  description = p.description;
}

abbrev pub entry : Payment → String → EntryType → String → CreateJournalEntryParams
entry payment account_id entry_type description = record {
  client_id = payment.client_id;
  payment_id = payment.id;
  account_id = account_id;
  entry_type = entry_type;
  amount_cents = payment.amount_cents;
  currency = payment.currency;
  description = description;
  reversal_of = none;
}

-- The two entries of `WriteInboundEntries` and of `WriteOutboundEntries`.
unfoldable pub inbound_entries : Payment → List CreateJournalEntryParams
inbound_entries p =
    entry p "mpesa.till" EntryType.debit ("Inbound payment via " <> type_text p.payment_type)
    ∷ entry p "revenue.sales" EntryType.credit ("Sales revenue for payment " <> p.id)
    ∷ []

unfoldable pub outbound_entries : Payment → List CreateJournalEntryParams
outbound_entries p =
    entry p "expense.operations" EntryType.debit
      ("Outbound payment via " <> type_text p.payment_type)
    ∷ entry p "mpesa.till" EntryType.credit ("Till outbound for payment " <> p.id)
    ∷ []

module _ (env : Env) where
  unfoldable pub write_balanced_entries : List CreateJournalEntryParams → Action ⊤
  write_balanced_entries params = do
    lift (wrap_err "journal balance check failed" (verify_balance (map domain_entry params)))
    wrapped "write journal entries" (JournalRepo.create_journal_entry_bulk env params)
    pure tt

  unfoldable pub write_inbound_entries : Payment → Action ⊤
  write_inbound_entries payment = write_balanced_entries (inbound_entries payment)

  unfoldable pub write_outbound_entries : Payment → Action ⊤
  write_outbound_entries payment = write_balanced_entries (outbound_entries payment)

  unfoldable pub get_account_balances : String → Action (List AccountBalance)
  get_account_balances client_id = JournalRepo.get_account_balances env client_id

  unfoldable pub get_trial_balance : String → Action (List AccountBalance)
  get_trial_balance client_id = JournalRepo.get_trial_balance env client_id

  unfoldable pub list_journal_entries_by_client : String → ℤ → ℤ → Action (List Journal)
  list_journal_entries_by_client client_id limit offset =
      JournalRepo.list_journal_entries_by_client env client_id limit offset
