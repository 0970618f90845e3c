-- ===== src/Service/Preserved/Accounts.antt =====
-- The invariants that the operations of internal/service/client_service.go keep.
use mkwanja_payment_service.Prelude.{ℕ, ◌+◌, ◌≡◌, String, List, [], ◌∷◌, arith}
use mkwanja_payment_service.Prelude.Result.{Result, ok, err}
use mkwanja_payment_service.Daraja.Messages.{Sent}
use mkwanja_payment_service.Db.Models.{Client}
use mkwanja_payment_service.Db.World.{World, Env}
use mkwanja_payment_service.Db.Action.{Action, statement, attempt}
use mkwanja_payment_service.Db.Keeps.{Keeps, Keeps-query, Keeps-wrapped, Keeps-bind, keeps_rules}
use mkwanja_payment_service.Db.Clients
use mkwanja_payment_service.Db.Clients.{
  CreateClientParams, CreateCredentialsParams, CreatePaystackCredentialsParams,
}
use mkwanja_payment_service.Db.Journal
use mkwanja_payment_service.Db.Journal.{CreateJournalAccountParams}
use mkwanja_payment_service.Repository.ClientRepo
use mkwanja_payment_service.Service.Preserved.{IsPreserved}
use mkwanja_payment_service.Service.Clients.{
  SeedAccount, account_params, RegisterClientRequest, UpdateCredentialsRequest, seed, sealed,
  sealed_credential, store_credentials, register_client, update_credentials, operator_client,
  ensure_operator_client, deactivate_client,
}
use mkwanja_payment_service.Service.Paystack.{
  PaystackService, RegisterPaystackCredentialsRequest, register_credentials,
}

module _ {P : World → Type 0} {Allowed : Sent → Type 0} (inv : IsPreserved P Allowed)
    (env : Env) where
  -- Statements that change one table at most.
  change_clients :
      {A : Type 0} (m : Action A)
      → ((w : World) → (m w).1 ≡ record w { tick = w.tick + 1; clients = (m w).1.clients })
      → Keeps P m
  change_clients m only = record {
    at = λ w h. rw (only w) (inv.timeless.at _ (w.tick + 1) (inv.clients w (m w).1.clients h));
  }

  change_credentials :
      {A : Type 0} (m : Action A)
      → ((w : World) → (m w).1 ≡ record w { tick = w.tick + 1; credentials = (m w).1.credentials })
      → Keeps P m
  change_credentials m only = record {
    at = λ w h.
        rw (only w) (inv.timeless.at _ (w.tick + 1) (inv.credentials w (m w).1.credentials h));
  }

  change_accounts :
      {A : Type 0} (m : Action A)
      → ((w : World) → (m w).1 ≡ record w { tick = w.tick + 1; accounts = (m w).1.accounts })
      → Keeps P m
  change_accounts m only = record {
    at = λ w h. rw (only w) (inv.timeless.at _ (w.tick + 1) (inv.accounts w (m w).1.accounts h));
  }

  change_paystack_credentials :
      {A : Type 0} (m : Action A)
      → ((w : World)
          → (m w).1
            ≡ record w { tick = w.tick + 1; paystack_credentials = (m w).1.paystack_credentials })
      → Keeps P m
  change_paystack_credentials m only = record {
    at = λ w h. rw (only w) (
        inv.timeless.at _ (w.tick + 1) (inv.paystack_credentials w (m w).1.paystack_credentials h));
  }

  create_client-Keeps : (p : CreateClientParams) → Keeps P (Clients.create_client env p)
  unfolding Clients.create_client statement
  create_client-Keeps p = change_clients (Clients.create_client env p) (λ w. ground arith)

  deactivate_client_row-Keeps : (id : String) → Keeps P (Clients.deactivate_client env id)
  unfolding Clients.deactivate_client statement
  deactivate_client_row-Keeps id =
      change_clients (Clients.deactivate_client env id) (λ w. ground arith)

  create_credentials-Keeps :
      (p : CreateCredentialsParams) → Keeps P (Clients.create_credentials env p)
  unfolding Clients.create_credentials statement
  create_credentials-Keeps p =
      change_credentials (Clients.create_credentials env p) (λ w. ground arith)

  deactivate_credentials-Keeps : (id : String) → Keeps P (Clients.deactivate_credentials env id)
  unfolding Clients.deactivate_credentials statement
  deactivate_credentials-Keeps id =
      change_credentials (Clients.deactivate_credentials env id) (λ w. ground arith)

  create_journal_account-Keeps :
      (a : CreateJournalAccountParams) → Keeps P (Journal.create_journal_account env a)
  unfolding Journal.create_journal_account statement
  create_journal_account-Keeps a =
      change_accounts (Journal.create_journal_account env a) (λ w. ground arith)

  deactivate_paystack_credentials-Keeps :
      (id : String) → Keeps P (Clients.deactivate_paystack_credentials env id)
  unfolding Clients.deactivate_paystack_credentials statement
  deactivate_paystack_credentials-Keeps id =
      change_paystack_credentials (Clients.deactivate_paystack_credentials env id)
        (λ w. ground arith)

  create_paystack_credentials-Keeps :
      (p : CreatePaystackCredentialsParams) → Keeps P (Clients.create_paystack_credentials env p)
  unfolding Clients.create_paystack_credentials statement
  create_paystack_credentials-Keeps p =
      change_paystack_credentials (Clients.create_paystack_credentials env p) (λ w. ground arith)

  ruleset client_rules = (
    keeps_rules, create_client-Keeps, deactivate_client_row-Keeps, create_credentials-Keeps,
    deactivate_credentials-Keeps, create_journal_account-Keeps,
  )

  seed-Keeps :
      (client_id : String) (accounts : List SeedAccount) → Keeps P (seed env client_id accounts)
  unfolding seed ClientRepo.create_journal_account
  seed-Keeps client_id [] = search client_rules
  seed-Keeps client_id (a ∷ accounts) =
      Keeps-bind (attempt (ClientRepo.create_journal_account env (account_params client_id a)))
        (λ r. seed env client_id accounts) (search client_rules)
        (λ r. seed-Keeps client_id accounts)

  module _ (key : List ℕ) where
    sealed-Keeps : (what plaintext : String) → Keeps P (sealed env key what plaintext)
    unfolding sealed
    sealed-Keeps what plaintext = record { at = λ w h. inv.timeless.at w (w.tick + 1) h }

    sealed_credential-Keeps : (c : String) → Keeps P (sealed_credential env key c)
    unfolding sealed_credential
    sealed_credential-Keeps c = search (keeps_rules, sealed-Keeps)

    store_credentials-Keeps :
        (empty context : String) (r : UpdateCredentialsRequest)
        → Keeps P (store_credentials env key empty context r)
    unfolding store_credentials ClientRepo.create_credentials
    store_credentials-Keeps empty context r =
        search (client_rules, sealed-Keeps, sealed_credential-Keeps) depth 9

    pub register_client-Keeps : (r : RegisterClientRequest) → Keeps P (register_client env key r)
    unfolding register_client ClientRepo.create_client
    register_client-Keeps r = search (client_rules, store_credentials-Keeps, seed-Keeps) depth 9

    pub update_credentials-Keeps :
        (r : UpdateCredentialsRequest) → Keeps P (update_credentials env key r)
    unfolding update_credentials ClientRepo.deactivate_credentials
    update_credentials-Keeps r = search (client_rules, store_credentials-Keeps) depth 9

    operator_client-Keeps :
        (external_id name : String) (r : Result Client)
        → Keeps P (operator_client env key external_id name r)
    unfolding operator_client ClientRepo.create_client
    operator_client-Keeps external_id name (ok c) = search client_rules
    operator_client-Keeps external_id name (err e) =
        search (client_rules, store_credentials-Keeps, seed-Keeps) depth 9

    by_external_id-Keeps :
        (external_id : String) → Keeps P (ClientRepo.get_client_by_external_id env external_id)
    unfolding ClientRepo.get_client_by_external_id Clients.get_client_by_external_id
    by_external_id-Keeps external_id = Keeps-wrapped _ _ (Keeps-query env _ inv.timeless)

    pub ensure_operator_client-Keeps :
        (external_id name : String) → Keeps P (ensure_operator_client env key external_id name)
    unfolding ensure_operator_client
    ensure_operator_client-Keeps external_id name =
        search (keeps_rules, by_external_id-Keeps, operator_client-Keeps) depth 7

  pub deactivate_client-Keeps : (id : String) → Keeps P (deactivate_client env id)
  unfolding deactivate_client ClientRepo.deactivate_client
  deactivate_client-Keeps id = search client_rules

  pub register_credentials-Keeps :
      (s : PaystackService) (r : RegisterPaystackCredentialsRequest)
      → Keeps P (register_credentials env s r)
  unfolding register_credentials ClientRepo.deactivate_paystack_credentials
      ClientRepo.create_paystack_credentials
  register_credentials-Keeps s r =
      search
        (
          keeps_rules, sealed-Keeps, deactivate_paystack_credentials-Keeps,
          create_paystack_credentials-Keeps,
        )
        depth 7
