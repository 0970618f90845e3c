-- ===== src/Service/Clients/Active.antt =====
-- How many rows of credentials of a client are active (internal/service/client_service.go).
use mkwanja_payment_service.Prelude.{
  ⊤, ℕ, String, ◌≡◌, refl, false, ◌&&◌, List, [], ◌∷◌, any, map, arith,
}
use mkwanja_payment_service.Prelude.Result.{Result, ok, err}
use mkwanja_payment_service.Db.Models.{Client, ClientCredential}
use mkwanja_payment_service.Db.World.{World, Env}
use mkwanja_payment_service.Db.Action.{wrapped}
use mkwanja_payment_service.Db.Keeps.{Keeps, Keeps-wrapped, Keeps-query, keeps_rules}
use mkwanja_payment_service.Db.Clients
use mkwanja_payment_service.Db.Clients.{
  is_active_for, inactive, CreateClientParams, CreateCredentialsParams,
}
use mkwanja_payment_service.Db.Journal
use mkwanja_payment_service.Db.Journal.{CreateJournalAccountParams}
use mkwanja_payment_service.Repository.ClientRepo
use mkwanja_payment_service.Service.Clients.{
  SeedAccount, account_params, seed, sealed, sealed_credential, store_credentials, register_client,
  update_credentials, operator_client, ensure_operator_client, RegisterClientRequest,
  UpdateCredentialsRequest,
}

-- No two rows of one client are active.
abbrev pub IsSingle : List ClientCredential → Type 0
IsSingle [] = ⊤
IsSingle (c ∷ cs) = (c.is_active && any (is_active_for c.client_id) cs ≡ false) × IsSingle cs

abbrev pub HasSingle : World → Type 0
HasSingle w = IsSingle w.credentials

any-inactive :
    (j k : String) (cs : List ClientCredential)
    → any (is_active_for j) cs ≡ false
    → any (is_active_for j) (map (inactive k) cs) ≡ false
any-inactive j k [] h = refl
any-inactive j k (c ∷ cs) h = ground (arith, any-inactive j k cs)

inactive-IsSingle :
    (k : String) (cs : List ClientCredential) → IsSingle cs → IsSingle (map (inactive k) cs)
inactive-IsSingle k [] h = tt
inactive-IsSingle k (c ∷ cs) (h, hs) =
    (ground (arith, any-inactive c.client_id k cs), inactive-IsSingle k cs hs)

module _ (env : Env) where
  create_credentials-HasSingle :
      (p : CreateCredentialsParams) → Keeps HasSingle (ClientRepo.create_credentials env p)
  unfolding ClientRepo.create_credentials Clients.create_credentials wrapped
  create_credentials-HasSingle p = record { at = λ w h. ground arith }

  deactivate_credentials-HasSingle :
      (client_id : String) → Keeps HasSingle (ClientRepo.deactivate_credentials env client_id)
  unfolding ClientRepo.deactivate_credentials Clients.deactivate_credentials wrapped
  deactivate_credentials-HasSingle client_id = record {
    at = λ w h. ground (arith, inactive-IsSingle client_id w.credentials h);
  }

  create_client-HasSingle :
      (p : CreateClientParams) → Keeps HasSingle (ClientRepo.create_client env p)
  unfolding ClientRepo.create_client Clients.create_client wrapped
  create_client-HasSingle p = record { at = λ w h. ground arith }

  create_journal_account-HasSingle :
      (a : CreateJournalAccountParams) → Keeps HasSingle (ClientRepo.create_journal_account env a)
  unfolding ClientRepo.create_journal_account Journal.create_journal_account wrapped
  create_journal_account-HasSingle a = record { at = λ w h. ground arith }

  seed-HasSingle :
      (client_id : String) (accounts : List SeedAccount)
      → Keeps HasSingle (seed env client_id accounts)
  unfolding seed
  seed-HasSingle client_id [] = record { at = λ w h. h }
  seed-HasSingle client_id (a ∷ accounts) = record {
    at = λ w h.
        let w' = (ClientRepo.create_journal_account env (account_params client_id a) w).1 in
        (seed-HasSingle client_id accounts).at w'
          ((create_journal_account-HasSingle (account_params client_id a)).at w h);
  }

  module _ (key : List ℕ) where
    sealed-HasSingle : (what plaintext : String) → Keeps HasSingle (sealed env key what plaintext)
    unfolding sealed
    sealed-HasSingle what plaintext = record { at = λ w h. h }

    sealed_credential-HasSingle :
        (credential : String) → Keeps HasSingle (sealed_credential env key credential)
    unfolding sealed_credential
    sealed_credential-HasSingle credential = search (keeps_rules, sealed-HasSingle)

    store_credentials-HasSingle :
        (empty context : String) (r : UpdateCredentialsRequest)
        → Keeps HasSingle (store_credentials env key empty context r)
    unfolding store_credentials
    store_credentials-HasSingle empty context r =
        search
          (keeps_rules, sealed-HasSingle, sealed_credential-HasSingle, create_credentials-HasSingle)
          depth 9

    register-HasSingle : (r : RegisterClientRequest) → Keeps HasSingle (register_client env key r)
    unfolding register_client
    register-HasSingle r =
        search (keeps_rules, create_client-HasSingle, store_credentials-HasSingle, seed-HasSingle)
          depth 9

    update-HasSingle :
        (r : UpdateCredentialsRequest) → Keeps HasSingle (update_credentials env key r)
    unfolding update_credentials
    update-HasSingle r =
        search (keeps_rules, deactivate_credentials-HasSingle, store_credentials-HasSingle) depth 9

    operator-HasSingle :
        (external_id name : String) (r : Result Client)
        → Keeps HasSingle (operator_client env key external_id name r)
    unfolding operator_client
    operator-HasSingle external_id name (ok c) = search keeps_rules
    operator-HasSingle external_id name (err e) =
        search (keeps_rules, create_client-HasSingle, store_credentials-HasSingle, seed-HasSingle)
          depth 9

    lookup-HasSingle :
        (external_id : String)
        → Keeps HasSingle (ClientRepo.get_client_by_external_id env external_id)
    unfolding ClientRepo.get_client_by_external_id Clients.get_client_by_external_id
    lookup-HasSingle external_id =
        Keeps-wrapped _ _ (Keeps-query env _ (record { at = λ w n h. h }))

    ensure-HasSingle :
        (external_id name : String)
        → Keeps HasSingle (ensure_operator_client env key external_id name)
    unfolding ensure_operator_client
    ensure-HasSingle external_id name =
        search (keeps_rules, lookup-HasSingle, operator-HasSingle) depth 9

-- The calls of the client service that write credentials.
pub data ClientCall : Type 0 where
  register : RegisterClientRequest → ClientCall
  update : UpdateCredentialsRequest → ClientCall
  ensure : String → String → ClientCall

-- The world after the call.
abbrev pub after : Env → List ℕ → ClientCall → World → World
after env key (register r) w = (register_client env key r w).1
after env key (update r) w = (update_credentials env key r w).1
after env key (ensure external_id name) w = (ensure_operator_client env key external_id name w).1

-- A registration, an update of credentials or the setup of an operator, whichever of its statements
-- fail, leaves at most one active row of credentials for each client, if there was at most one before.
pub after-IsSingle :
    (env : Env) (key : List ℕ) (call : ClientCall) (w : World)
    → IsSingle w.credentials
    → IsSingle (after env key call w).credentials
after-IsSingle env key (register r) w h = (register-HasSingle env key r).at w h
after-IsSingle env key (update r) w h = (update-HasSingle env key r).at w h
after-IsSingle env key (ensure external_id name) w h =
    (ensure-HasSingle env key external_id name).at w h
