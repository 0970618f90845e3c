-- ===== src/Service/Reads.antt =====
-- The operations of internal/service that only read.
use mkwanja_payment_service.Prelude.{String}
use mkwanja_payment_service.Prelude.Int.{ℤ}
use mkwanja_payment_service.Db.World.{World, Env}
use mkwanja_payment_service.Db.Keeps.{Keeps, IsTimeless, Keeps-query, Keeps-wrapped}
use mkwanja_payment_service.Db.Payments
use mkwanja_payment_service.Db.Clients
use mkwanja_payment_service.Db.Journal
use mkwanja_payment_service.Repository.PaymentRepo
use mkwanja_payment_service.Repository.ClientRepo
use mkwanja_payment_service.Repository.JournalRepo
use mkwanja_payment_service.Service.Settle.{get_payment, list_payments}
use mkwanja_payment_service.Service.Clients.{get_client, list_clients}
use mkwanja_payment_service.Service.Ledger.{
  get_account_balances, get_trial_balance, list_journal_entries_by_client,
}

module _ {P : World → Type 0} (timeless : IsTimeless P) (env : Env) where
  pub get_payment-Keeps : (id : String) → Keeps P (get_payment env id)
  unfolding get_payment PaymentRepo.get_payment_by_id Payments.get_payment_by_id
  get_payment-Keeps id = Keeps-wrapped _ _ (Keeps-wrapped _ _ (Keeps-query env _ timeless))

  pub list_payments-Keeps :
      (client_id : String) (limit offset : ℤ) → Keeps P (list_payments env client_id limit offset)
  unfolding list_payments PaymentRepo.list_payments_by_client Payments.list_payments_by_client
  list_payments-Keeps client_id limit offset = Keeps-wrapped _ _ (Keeps-query env _ timeless)

  pub get_client-Keeps : (id : String) → Keeps P (get_client env id)
  unfolding get_client ClientRepo.get_client_by_id Clients.get_client_by_id
  get_client-Keeps id = Keeps-wrapped _ _ (Keeps-wrapped _ _ (Keeps-query env _ timeless))

  pub list_clients-Keeps : Keeps P (list_clients env)
  unfolding list_clients ClientRepo.list_clients Clients.list_clients
  list_clients-Keeps = Keeps-wrapped _ _ (Keeps-query env _ timeless)

  pub list_entries-Keeps :
      (client_id : String) (limit offset : ℤ)
      → Keeps P (list_journal_entries_by_client env client_id limit offset)
  unfolding list_journal_entries_by_client JournalRepo.list_journal_entries_by_client
      Journal.list_journal_entries_by_client
  list_entries-Keeps client_id limit offset = Keeps-wrapped _ _ (Keeps-query env _ timeless)

  pub get_account_balances-Keeps :
      (client_id : String) → Keeps P (get_account_balances env client_id)
  unfolding get_account_balances JournalRepo.get_account_balances Journal.get_account_balances
  get_account_balances-Keeps client_id = Keeps-wrapped _ _ (Keeps-query env _ timeless)

  pub get_trial_balance-Keeps : (client_id : String) → Keeps P (get_trial_balance env client_id)
  unfolding get_trial_balance JournalRepo.get_trial_balance Journal.get_trial_balance
  get_trial_balance-Keeps client_id = Keeps-wrapped _ _ (Keeps-query env _ timeless)
