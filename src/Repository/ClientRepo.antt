-- ===== src/Repository/ClientRepo.antt =====
-- internal/repository/client_repo.go and paystack_repo.go
use mkwanja_payment_service.Prelude.{String, Bool, List}
use mkwanja_payment_service.Db.Models.{
  Client, ClientCredential, ClientPaystackCredential, JournalAccount,
}
use mkwanja_payment_service.Db.World.{Env}
use mkwanja_payment_service.Db.Action.{Action, wrapped}
use mkwanja_payment_service.Db.Clients
use mkwanja_payment_service.Db.Clients.{
  CreateClientParams, CreateCredentialsParams, CreatePaystackCredentialsParams,
}
use mkwanja_payment_service.Db.Journal
use mkwanja_payment_service.Db.Journal.{CreateJournalAccountParams}

module _ (env : Env) where
  unfoldable pub create_client : CreateClientParams → Action Client
  create_client p = wrapped "create client" (Clients.create_client env p)

  unfoldable pub get_client_by_id : String → Action Client
  get_client_by_id id = wrapped "get client by id" (Clients.get_client_by_id env id)

  unfoldable pub get_client_by_external_id : String → Action Client
  get_client_by_external_id id =
      wrapped "get client by external id" (Clients.get_client_by_external_id env id)

  unfoldable pub list_clients : Action (List Client)
  list_clients = wrapped "list clients" (Clients.list_clients env)

  unfoldable pub deactivate_client : String → Action Client
  deactivate_client id = wrapped "deactivate client" (Clients.deactivate_client env id)

  unfoldable pub create_credentials : CreateCredentialsParams → Action ClientCredential
  create_credentials p = wrapped "create credentials" (Clients.create_credentials env p)

  unfoldable pub get_active_credentials : String → Action ClientCredential
  get_active_credentials client_id =
      wrapped "get active credentials" (Clients.get_active_credentials env client_id)

  unfoldable pub deactivate_credentials : String → Action Unit
  deactivate_credentials client_id =
      wrapped "deactivate credentials" (Clients.deactivate_credentials env client_id)

  unfoldable pub create_journal_account : CreateJournalAccountParams → Action JournalAccount
  create_journal_account a = wrapped "create journal account" (Journal.create_journal_account env a)

  unfoldable pub list_journal_accounts :
      (String → String → Bool) → String → Action (List JournalAccount)
  list_journal_accounts before client_id =
      wrapped "list journal accounts" (Journal.list_journal_accounts env before client_id)

  unfoldable pub create_paystack_credentials :
      CreatePaystackCredentialsParams → Action ClientPaystackCredential
  create_paystack_credentials p =
      wrapped "create paystack credentials" (Clients.create_paystack_credentials env p)

  unfoldable pub get_active_paystack_credentials : String → Action ClientPaystackCredential
  get_active_paystack_credentials client_id =
      wrapped "get active paystack credentials"
        (Clients.get_active_paystack_credentials env client_id)

  unfoldable pub deactivate_paystack_credentials : String → Action Unit
  deactivate_paystack_credentials client_id =
      wrapped "deactivate paystack credentials"
        (Clients.deactivate_paystack_credentials env client_id)
