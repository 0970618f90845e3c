-- ===== src/Config.antt =====
-- internal/config/config.go: the settings, the consumers and their secrets. The environment variables and
-- bcrypt are parameters.
use mkwanja_payment_service.Prelude.{
  String, Bool, false, List, [], ◌∷◌, Option, none, some, find, any, is_empty, str_eq, ◌<>◌, ◌||◌,
  if◌then◌else◌,
}
use mkwanja_payment_service.Prelude.Result.{Result, ok, err, msg}
use mkwanja_payment_service.Prelude.Split.{split_in_3}

pub record ConsumerConfig : Type 0 where
  pub id : String
  pub secret_hash : String
  pub callback_url : String
  pub database_url : String

pub record Config : Type 0 where
  pub port : String
  pub environment : String
  pub redis_url : String
  pub credential_encryption_key : String
  pub daraja_base_url : String
  pub daraja_callback_url : String
  pub paystack_base_url : String
  pub operator_client_id : String
  pub operator_consumer_id : String
  pub operator_client_name : String
  pub consumers : List ConsumerConfig

-- What the configuration takes from the process and from golang.org/x/crypto/bcrypt.
pub record Surroundings : Type 0 where
  -- os.Environ(), the texts `KEY=value`
  pub environ : List String
  -- os.Getenv
  pub getenv : String → String
  -- bcrypt.GenerateFromPassword
  pub generate : String → Result String
  -- bcrypt.CompareHashAndPassword(hash, secret) == nil
  pub compare : String → String → Bool

-- `v != ""` or the fallback
abbrev pub present_or : String → String → String
present_or v fallback = if is_empty v then fallback else v

module _ (os : Surroundings) where
  abbrev pub get_env : String → String → String
  get_env key fallback = present_or (os.getenv key) fallback

  -- The consumer of one variable, given the names that were seen.
  unfoldable pub load_consumer : String → Option ConsumerConfig
  load_consumer name =
      let id = os.getenv ("CONSUMER_" <> name <> "_ID") in
      let secret = os.getenv ("CONSUMER_" <> name <> "_SECRET") in
      let database_url = os.getenv ("CONSUMER_" <> name <> "_DATABASE_URL") in
      if is_empty id || is_empty secret || is_empty database_url
      then none
      else elim (os.generate secret) [
        | err e ↦ none
        | ok hash ↦ some (record {
          id = id;
          secret_hash = hash;
          callback_url = os.getenv ("CONSUMER_" <> name <> "_CALLBACK_URL");
          database_url = database_url;
        })
      ]

  -- `name := parts[1]` of a variable that begins with `CONSUMER_` and has a second underscore. A text that
  -- is split at underscores begins with `CONSUMER_` when its first part of three is `CONSUMER`.
  unfoldable pub name_of : String → Option String
  name_of variable = elim (split_in_3 b'_' variable) [
    | [] ↦ none
    | a ∷ rest ↦ elim rest [
      | [] ↦ none
      | b ∷ others ↦ elim others [
        | [] ↦ none
        | c ∷ more ↦ if str_eq a "CONSUMER" then some b else none
      ]
    ]
  ]

  -- The loop, with the names that were seen.
  unfoldable pub load_all : List String → List String → List ConsumerConfig
  unfolding name_of load_consumer
  load_all seen [] = []
  load_all seen (variable ∷ variables) =
      let skipped = load_all seen variables in
      elim (name_of variable) [
        | none ↦ skipped
        | some name ↦ if any (str_eq name) seen then skipped else elim (load_consumer name) [
          | none ↦ load_all (name ∷ seen) variables
          | some consumer ↦ consumer ∷ load_all (name ∷ seen) variables
        ]
      ]

  unfoldable pub load_consumers : List ConsumerConfig
  unfolding load_all
  load_consumers = load_all [] os.environ

  -- `mustEnv` panics: the process does not start, which is an error here.
  unfoldable pub load : Result Config
  unfolding load_consumers
  load =
      if is_empty (os.getenv "REDIS_URL")
      then err (msg "required env var REDIS_URL is not set")
      else if is_empty (os.getenv "CREDENTIAL_ENCRYPTION_KEY")
      then err (msg "required env var CREDENTIAL_ENCRYPTION_KEY is not set")
      else if is_empty (os.getenv "DARAJA_BASE_URL")
      then err (msg "required env var DARAJA_BASE_URL is not set")
      else if is_empty (os.getenv "DARAJA_CALLBACK_URL")
      then err (msg "required env var DARAJA_CALLBACK_URL is not set")
      else elim load_consumers [
        | [] ↦ err (msg "no consumers configured — set CONSUMER_<ID>_* env vars")
        | c ∷ cs ↦ ok (record {
          port = get_env "PORT" "8080";
          environment = get_env "ENVIRONMENT" "development";
          redis_url = os.getenv "REDIS_URL";
          credential_encryption_key = os.getenv "CREDENTIAL_ENCRYPTION_KEY";
          daraja_base_url = os.getenv "DARAJA_BASE_URL";
          daraja_callback_url = os.getenv "DARAJA_CALLBACK_URL";
          paystack_base_url = get_env "PAYSTACK_BASE_URL" "https://api.paystack.co";
          operator_client_id = get_env "OPERATOR_CLIENT_ID" "";
          operator_consumer_id = get_env "OPERATOR_CONSUMER_ID" "mkwanja";
          operator_client_name = get_env "OPERATOR_CLIENT_NAME" "Dexter Operator";
          consumers = c ∷ cs;
        })
      ]

-- The map from ids to consumers, the last one set first.
pub record ConsumerRegistry : Type 0 where
  pub consumers : List (String × ConsumerConfig)

-- for _, c := range consumers { m[c.ID] = c }
abbrev pub put_all :
    List ConsumerConfig → List (String × ConsumerConfig) → List (String × ConsumerConfig)
put_all [] m = m
put_all (c ∷ cs) m = put_all cs ((c.id, c) ∷ m)

unfoldable pub new_consumer_registry : List ConsumerConfig → ConsumerRegistry
new_consumer_registry consumers = record { consumers = put_all consumers [] }

-- `Get`
unfoldable pub get : ConsumerRegistry → String → Option ConsumerConfig
get r id = elim (find (λ (entry : String × ConsumerConfig). str_eq entry.0 id) r.consumers) [
  | none ↦ none
  | some entry ↦ some entry.1
]

-- `Validate`
unfoldable pub validate : Surroundings → ConsumerRegistry → String → String → Bool
unfolding get
validate os r id secret = elim (get r id) [
  | none ↦ false
  | some c ↦ os.compare c.secret_hash secret
]
