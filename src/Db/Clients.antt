-- ===== src/Db/Clients.antt =====
-- internal/db/generated/clients.sql.go, client_credentials.sql.go and paystack_credentials.sql.go,
-- with the constraints of the migrations 001, 002 and 006. New rows stand first.
use mkwanja_payment_service.Prelude.{
  String, Bool, true, false, not, ◌&&◌, List, ◌∷◌, map, Option, none, some, find, select, any, leb,
  str_eq, if◌then◌else◌,
}
use mkwanja_payment_service.Prelude.Result.{Result, ok, err, sql, no_rows, constraint}
use mkwanja_payment_service.Db.Models.{Client, ClientCredential, ClientPaystackCredential}
use mkwanja_payment_service.Db.World.{Env}
use mkwanja_payment_service.Db.Action.{Action, statement, query}
use mkwanja_payment_service.Db.Rows.{order_by}
use mkwanja_payment_service.Db.Payments.{has_client}

pub record CreateClientParams : Type 0 where
  pub external_id : String
  pub name : String

pub record CreateCredentialsParams : Type 0 where
  pub client_id : String
  pub shortcode : String
  pub consumer_key_encrypted : String
  pub consumer_secret_encrypted : String
  pub passkey_encrypted : String
  pub initiator_name : Option String
  pub security_credential_encrypted : Option String

pub record CreatePaystackCredentialsParams : Type 0 where
  pub client_id : String
  pub secret_key_encrypted : String
  pub public_key : String

abbrev pub one_of {ℓ} : {A : Type ℓ} → Option A → Result A
one_of none = err (sql no_rows)
one_of (some a) = ok a

abbrev pub is_client : String → Client → Bool
is_client id c = str_eq c.id id

-- client_id = $1 AND is_active = TRUE
abbrev pub is_active_for : String → ClientCredential → Bool
is_active_for client_id c = str_eq c.client_id client_id && c.is_active

abbrev pub is_active_paystack_for : String → ClientPaystackCredential → Bool
is_active_paystack_for client_id c = str_eq c.client_id client_id && c.is_active

abbrev pub inactive : String → ClientCredential → ClientCredential
inactive client_id c = if is_active_for client_id c then record c { is_active = false } else c

abbrev pub inactive_paystack : String → ClientPaystackCredential → ClientPaystackCredential
inactive_paystack client_id c =
    if is_active_paystack_for client_id c then record c { is_active = false } else c

module _ (env : Env) where
  unfoldable pub create_client : CreateClientParams → Action Client
  unfolding statement
  create_client p = statement env λ w.
      let row : Client = record {
        id = env.uuid w.tick;
        external_id = p.external_id;
        name = p.name;
        active = true;
        created_at = env.now w.tick;
        updated_at = env.now w.tick;
      } in
      if has_client row.id w
      then (err (sql (constraint "clients_pkey")), w)
      else if any (λ (c : Client). str_eq c.external_id p.external_id) w.clients
      then (err (sql (constraint "clients_external_id_key")), w)
      else (ok row, record w { clients = row ∷ w.clients })

  unfoldable pub deactivate_client : String → Action Client
  unfolding statement
  deactivate_client id = statement env λ w.
      let off : Client → Client = λ c. record c { active = false; updated_at = env.now w.tick } in
      elim (find (is_client id) w.clients) [
        | none ↦ (err (sql no_rows), w)
        | some c ↦ (
          ok (off c),
          record w { clients = map (λ d. if is_client id d then off d else d) w.clients },
        )
      ]

  unfoldable pub get_client_by_external_id : String → Action Client
  get_client_by_external_id external_id =
      query env λ w. one_of (find (λ c. str_eq c.external_id external_id) w.clients)

  unfoldable pub get_client_by_id : String → Action Client
  get_client_by_id id = query env λ w. one_of (find (is_client id) w.clients)

  -- WHERE active = TRUE ORDER BY created_at DESC
  unfoldable pub list_clients : Action (List Client)
  list_clients =
      query env
        λ w. ok (order_by (λ p q. leb q.created_at p.created_at) (select (λ c. c.active) w.clients))

  -- At most one active row for each client: idx_client_credentials_one_active.
  unfoldable pub create_credentials : CreateCredentialsParams → Action ClientCredential
  unfolding statement
  create_credentials p = statement env λ w.
      let row : ClientCredential = record {
        id = env.uuid w.tick;
        client_id = p.client_id;
        shortcode = p.shortcode;
        consumer_key_encrypted = p.consumer_key_encrypted;
        consumer_secret_encrypted = p.consumer_secret_encrypted;
        passkey_encrypted = p.passkey_encrypted;
        initiator_name = p.initiator_name;
        security_credential_encrypted = p.security_credential_encrypted;
        is_active = true;
        created_at = env.now w.tick;
      } in
      if any (λ (c : ClientCredential). str_eq c.id row.id) w.credentials
      then (err (sql (constraint "client_credentials_pkey")), w)
      else if any (is_active_for p.client_id) w.credentials
      then (err (sql (constraint "idx_client_credentials_one_active")), w)
      else if not (has_client p.client_id w)
      then (err (sql (constraint "client_credentials_client_id_fkey")), w)
      else (ok row, record w { credentials = row ∷ w.credentials })

  unfoldable pub deactivate_credentials : String → Action Unit
  unfolding statement
  deactivate_credentials client_id =
      statement env λ w. (ok tt, record w { credentials = map (inactive client_id) w.credentials })

  unfoldable pub get_active_credentials : String → Action ClientCredential
  get_active_credentials client_id =
      query env λ w. one_of (find (is_active_for client_id) w.credentials)

  unfoldable pub create_paystack_credentials :
      CreatePaystackCredentialsParams → Action ClientPaystackCredential
  unfolding statement
  create_paystack_credentials p = statement env λ w.
      let row : ClientPaystackCredential = record {
        id = env.uuid w.tick;
        client_id = p.client_id;
        secret_key_encrypted = p.secret_key_encrypted;
        public_key = p.public_key;
        is_active = true;
        created_at = env.now w.tick;
      } in
      if any (λ (c : ClientPaystackCredential). str_eq c.id row.id) w.paystack_credentials
      then (err (sql (constraint "client_paystack_credentials_pkey")), w)
      else if any (is_active_paystack_for p.client_id) w.paystack_credentials
      then (err (sql (constraint "idx_client_paystack_credentials_one_active")), w)
      else if not (has_client p.client_id w)
      then (err (sql (constraint "client_paystack_credentials_client_id_fkey")), w)
      else (ok row, record w { paystack_credentials = row ∷ w.paystack_credentials })

  unfoldable pub deactivate_paystack_credentials : String → Action Unit
  unfolding statement
  deactivate_paystack_credentials client_id = statement env λ w. (
    ok tt,
    record w { paystack_credentials = map (inactive_paystack client_id) w.paystack_credentials },
  )

  unfoldable pub get_active_paystack_credentials : String → Action ClientPaystackCredential
  get_active_paystack_credentials client_id =
      query env λ w. one_of (find (is_active_paystack_for client_id) w.paystack_credentials)
