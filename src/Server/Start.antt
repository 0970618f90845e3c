-- ===== src/Server/Start.antt =====
-- cmd/server/main.go: how the process starts, up to `app.Listen`. The process exits at an error; what was
-- written to the databases before it stays. Logging is left out.
pub mod Known
pub mod Sound
pub mod Wiring
use mkwanja_payment_service.Prelude.{
  ⊤, ℕ, String, ◌≡◌, refl, Bool, true, false, ◌||◌, List, [], ◌∷◌, Option, none, some, find, any,
  is_empty, str_eq, eq_iff, Bool-cases, inl, inr, arith, if◌then◌else◌,
}
use mkwanja_payment_service.Prelude.Result.{Result, ok, err, succeeds}
use mkwanja_payment_service.Crypto.{parse_hex_key}
use mkwanja_payment_service.Config
use mkwanja_payment_service.Config.{
  Config, ConsumerConfig, ConsumerRegistry, Surroundings, put_all, new_consumer_registry,
}
use mkwanja_payment_service.Db.World.{World, Env}
use mkwanja_payment_service.Service.Clients.{ensure_operator_client}
use mkwanja_payment_service.Server.Registry.{
  Pools, Dialer, new_registry, lookup, put, register, get, lookup-put,
}

-- What the process finds where it starts.
pub record Machine : Type 0 where
  pub os : Surroundings
  -- for the statements that seed the operator, and for the cipher
  pub env : Env
  -- redis.ParseURL, with the address
  pub redis_address : String → Result String
  pub dialer : Dialer
  -- `MigrateConsumerDB`: goose, with the files of internal/db/migrations/consumer
  pub migrate : World → Result World
  -- worker.Start()
  pub worker : Result ⊤

-- What the handlers are made from.
pub record Started : Type 0 where
  pub config : Config
  pub encrypt_key : List ℕ
  pub consumers : ConsumerRegistry

abbrev pub Boot : Type 0 → Type 0
Boot A = Pools → Result A × Pools

abbrev pub after : {A B : Type 0} → Result A × Pools → (A → Boot B) → Result B × Pools
after (err e, pools) go = (err e, pools)
after (ok a, pools) go = go a pools

module _ (m : Machine) where
  abbrev pub migrated : String → Result World → Boot ⊤
  migrated id (err e) pools = (err e, pools)
  migrated id (ok w) pools = (ok tt, put id w pools)

  abbrev pub migrate_pool : String → Result World → Boot ⊤
  migrate_pool id (err e) pools = (err e, pools)
  migrate_pool id (ok w) pools = migrated id (m.migrate w) pools

  -- The body of the loop over the consumers.
  unfoldable pub register_consumer : ConsumerConfig → Boot ⊤
  unfolding register get
  register_consumer c pools =
      after (register m.dialer c.id c.database_url pools) (λ u p. migrate_pool c.id (get p c.id) p)

  unfoldable pub register_all : List ConsumerConfig → Boot ⊤
  unfolding register_consumer
  register_all [] pools = (ok tt, pools)
  register_all (c ∷ cs) pools = after (register_consumer c pools) (λ u. register_all cs)

  abbrev pub seeded : {A : Type 0} → String → Result A × World → Boot ⊤
  seeded id (err e, w) pools = (err e, put id w pools)
  seeded id (ok a, w) pools = (ok tt, put id w pools)

  abbrev pub seed_in : List ℕ → Config → Result World → Boot ⊤
  seed_in key cfg (err e) pools = (err e, pools)
  seed_in key cfg (ok w) pools =
      seeded cfg.operator_consumer_id
        (ensure_operator_client m.env key cfg.operator_client_id cfg.operator_client_name w) pools

  unfoldable pub seed_operator : List ℕ → Config → Boot ⊤
  unfolding get
  seed_operator key cfg pools =
      if is_empty cfg.operator_client_id
      then (ok tt, pools)
      else seed_in key cfg (get pools cfg.operator_consumer_id) pools

  abbrev pub started : Config → List ℕ → Result ⊤ → Boot Started
  started cfg key (err e) pools = (err e, pools)
  started cfg key (ok _) pools = (
    ok (record {
      config = cfg;
      encrypt_key = key;
      consumers = new_consumer_registry cfg.consumers;
    }),
    pools,
  )

  -- From the registry on.
  unfoldable pub start_with : Config → List ℕ → Result Started × Pools
  unfolding register_all seed_operator
  start_with cfg key =
      after (register_all cfg.consumers new_registry)
        (λ u p. after (seed_operator key cfg p) (λ v q. started cfg key m.worker q))

  abbrev pub with_key : Config → Result (List ℕ) → Result Started × Pools
  with_key cfg (err e) = (err e, new_registry)
  with_key cfg (ok key) = start_with cfg key

  abbrev pub with_redis : Config → Result String → Result Started × Pools
  with_redis cfg (err e) = (err e, new_registry)
  with_redis cfg (ok address) =
      with_key cfg (parse_hex_key m.env.crypto cfg.credential_encryption_key)

  abbrev pub with_config : Result Config → Result Started × Pools
  with_config (err e) = (err e, new_registry)
  with_config (ok cfg) = with_redis cfg (m.redis_address cfg.redis_url)

  unfoldable pub start : Result Started × Pools
  unfolding start_with
  start = with_config (Config.load m.os)
