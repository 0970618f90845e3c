-- ===== src/Service/Clients.antt =====
-- internal/service/client_service.go: clients, their credentials, and the accounts that they start with.
-- Logging is left out.
pub mod Seeds
pub mod Active
pub mod Update
pub mod TestCredentials
use mkwanja_payment_service.Prelude.{
  ⊤, ℕ, ◌+◌, String, List, [], ◌∷◌, Option, none, some, is_empty, ◌<>◌, if◌then◌else◌,
}
use mkwanja_payment_service.Prelude.Result.{Result, ok, err, msg, wrap_err, ◌fails_with◌then◌}
use mkwanja_payment_service.Crypto.{encrypt}
use mkwanja_payment_service.Db.Models.{Client, AccountType, NormalBalance, null_string}
use mkwanja_payment_service.Db.World.{Env}
use mkwanja_payment_service.Db.Action.{Action, pure, raise, lift, attempt, wrapped, ◌>>=◌, ◌>>◌}
use mkwanja_payment_service.Db.Clients.{CreateCredentialsParams}
use mkwanja_payment_service.Db.Journal.{CreateJournalAccountParams}
use mkwanja_payment_service.Repository.ClientRepo
use mkwanja_payment_service.Service.Initiate.Common.{or_default}

pub record SeedAccount : Type 0 where
  pub id : String
  pub name : String
  pub account_type : AccountType
  pub normal_balance : NormalBalance
  pub description : String

abbrev account : String → String → AccountType → NormalBalance → String → SeedAccount
account id name account_type normal_balance description = record {
  id = id;
  name = name;
  account_type = account_type;
  normal_balance = normal_balance;
  description = description;
}

abbrev pub default_accounts : List SeedAccount
default_accounts =
    account "mpesa.till" "M-PESA till" AccountType.asset NormalBalance.debit "M-PESA till balance"
    ∷ account "revenue.sales" "Sales revenue" AccountType.revenue NormalBalance.credit
        "Sales revenue ex-VAT"
    ∷ account "revenue.other" "Other revenue" AccountType.revenue NormalBalance.credit
        "Other revenue"
    ∷ account "expense.cogs" "Cost of goods sold" AccountType.expense NormalBalance.debit
        "Cost of goods sold"
    ∷ account "expense.operations" "Operating expenses" AccountType.expense NormalBalance.debit
        "Operating expenses"
    ∷ account "liability.vat_payable" "VAT payable" AccountType.liability NormalBalance.credit
        "Output VAT collected"
    ∷ account "liability.pending" "Pending payments" AccountType.liability NormalBalance.credit
        "Pending payments"
    ∷ account "fees.mpesa" "M-PESA charges" AccountType.expense NormalBalance.debit
        "M-PESA transaction fees"
    ∷ []

pub record RegisterClientRequest : Type 0 where
  pub external_id : String
  pub name : String
  pub shortcode : String
  pub consumer_key : String
  pub consumer_secret : String
  pub passkey : String
  pub initiator_name : String
  pub security_credential : String

unfoldable pub validate_register : RegisterClientRequest → Result ⊤
validate_register r =
    is_empty r.external_id fails_with "external_id is required"
    then is_empty r.name fails_with "name is required"
    then is_empty r.shortcode fails_with "shortcode is required"
    then is_empty r.consumer_key fails_with "consumer_key is required"
    then is_empty r.consumer_secret fails_with "consumer_secret is required"
    then is_empty r.passkey fails_with "passkey is required"
    then ok tt

pub record UpdateCredentialsRequest : Type 0 where
  pub client_id : String
  pub shortcode : String
  pub consumer_key : String
  pub consumer_secret : String
  pub passkey : String
  pub initiator_name : String
  pub security_credential : String

unfoldable pub validate_update : UpdateCredentialsRequest → Result ⊤
validate_update r =
    is_empty r.client_id fails_with "client_id is required"
    then is_empty r.consumer_key fails_with "consumer_key is required"
    then is_empty r.consumer_secret fails_with "consumer_secret is required"
    then is_empty r.passkey fails_with "passkey is required"
    then ok tt

abbrev pub account_params : String → SeedAccount → CreateJournalAccountParams
account_params client_id a = record {
  id = a.id;
  client_id = client_id;
  name = a.name;
  account_type = a.account_type;
  normal_balance = a.normal_balance;
  description = some a.description;
}

module _ (env : Env) where
  -- The loop over the accounts: an error is logged, and the next account is taken.
  unfoldable pub seed : String → List SeedAccount → Action ⊤
  unfolding ◌>>=◌
  seed client_id [] = pure tt
  seed client_id (a ∷ accounts) = do
    attempt (ClientRepo.create_journal_account env (account_params client_id a))
    seed client_id accounts

  module _ (encrypt_key : List ℕ) where
    -- crypto.Encrypt(s.encryptKey, plaintext), with random bytes of its own
    unfoldable pub sealed : String → String → Action String
    sealed what plaintext w = (
      wrap_err what (encrypt env.crypto (env.random w.tick) encrypt_key plaintext),
      record w { tick = w.tick + 1 },
    )

    unfoldable pub sealed_credential : String → Action (Option String)
    unfolding sealed
    sealed_credential credential =
        if is_empty credential
        then pure none
        else (sealed "encrypt security_credential" credential >>= λ s. pure (some s))

    -- Encrypts the three secrets and the credential of the initiator, and stores them. The first text
    -- stands in the messages of the encryption, the second in front of the error of the statement.
    unfoldable pub store_credentials : String → String → UpdateCredentialsRequest → Action ⊤
    unfolding sealed_credential
    store_credentials empty context r = do
      key ← sealed ("encrypt " <> empty <> "consumer_key") r.consumer_key
      secret ← sealed ("encrypt " <> empty <> "consumer_secret") r.consumer_secret
      passkey ← sealed ("encrypt " <> empty <> "passkey") r.passkey
      security ← sealed_credential r.security_credential
      wrapped context (
          ClientRepo.create_credentials env (record {
            client_id = r.client_id;
            shortcode = r.shortcode;
            consumer_key_encrypted = key;
            consumer_secret_encrypted = secret;
            passkey_encrypted = passkey;
            initiator_name = null_string r.initiator_name;
            security_credential_encrypted = security;
          }))
      pure tt

    abbrev pub first_credentials : RegisterClientRequest → Client → UpdateCredentialsRequest
    first_credentials r c = record {
      client_id = c.id;
      shortcode = r.shortcode;
      consumer_key = r.consumer_key;
      consumer_secret = r.consumer_secret;
      passkey = r.passkey;
      initiator_name = r.initiator_name;
      security_credential = r.security_credential;
    }

    unfoldable pub register_client : RegisterClientRequest → Action Client
    unfolding store_credentials seed
    register_client r = do
      lift (wrap_err "validation" (validate_register r))
      c ←
          wrapped "create client"
            (ClientRepo.create_client env (record { external_id = r.external_id; name = r.name }))
      store_credentials "" "store credentials" (first_credentials r c)
      seed c.id default_accounts
      pure c

    unfoldable pub update_credentials : UpdateCredentialsRequest → Action ⊤
    unfolding store_credentials
    update_credentials r = do
      lift (wrap_err "validation" (validate_update r))
      wrapped "deactivate old credentials" (ClientRepo.deactivate_credentials env r.client_id)
      store_credentials "" "store new credentials" r

    -- The operator has empty secrets at first.
    abbrev pub no_credentials : Client → UpdateCredentialsRequest
    no_credentials c = record {
      client_id = c.id;
      shortcode = "";
      consumer_key = "";
      consumer_secret = "";
      passkey = "";
      initiator_name = "";
      security_credential = "";
    }

    -- From the lookup of the client on.
    unfoldable pub operator_client : String → String → Result Client → Action Client
    unfolding store_credentials seed
    operator_client external_id name (ok existing) = pure existing
    operator_client external_id name (err _) = do
      c ←
          wrapped "create operator client"
            (ClientRepo.create_client env (record { external_id = external_id; name = name }))
      store_credentials "empty " "store operator credentials" (no_credentials c)
      seed c.id default_accounts
      pure c

    unfoldable pub ensure_operator_client : String → String → Action Client
    unfolding operator_client
    ensure_operator_client external_id name =
        if is_empty external_id
        then raise (msg "operator client_id is required")
        else (attempt (ClientRepo.get_client_by_external_id env external_id)
            >>= operator_client external_id (or_default name "Dexter Operator"))

  unfoldable pub deactivate_client : String → Action ⊤
  deactivate_client client_id =
      if is_empty client_id
      then raise (msg "client_id is required")
      else (wrapped "deactivate client" (ClientRepo.deactivate_client env client_id) >> pure tt)

  unfoldable pub get_client : String → Action Client
  get_client id = wrapped "get client" (ClientRepo.get_client_by_id env id)

  unfoldable pub list_clients : Action (List Client)
  list_clients = ClientRepo.list_clients env
