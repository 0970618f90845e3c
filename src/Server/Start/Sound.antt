-- ===== src/Server/Start/Sound.antt =====
-- What holds of every database from the start on (cmd/server/main.go, internal/db/registry.go).
use mkwanja_payment_service.Prelude.{
  ⊤, ℕ, String, ◌≡◌, refl, List, [], ◌∷◌, All, Option-cases, inl, inr, is_empty, Bool-cases,
}
use mkwanja_payment_service.Prelude.Result.{Result, ok, err, Result-cases}
use mkwanja_payment_service.Crypto.{parse_hex_key}
use mkwanja_payment_service.Config
use mkwanja_payment_service.Config.{Config, ConsumerConfig}
use mkwanja_payment_service.Db.World.{World}
use mkwanja_payment_service.Service.Reach.{Step}
use mkwanja_payment_service.Service.Clients.{ensure_operator_client}
use mkwanja_payment_service.Server.Registry.{
  Pools, new_registry, lookup, register, get, All-put, All-lookup,
}
use mkwanja_payment_service.Server.{Server, Run}
use mkwanja_payment_service.Server.Sound.{IsSound, IsSound-IsLasting, some_service, Run-IsSound}
use mkwanja_payment_service.Server.Start.{
  Machine, Boot, after, register_consumer, register_all, migrate_pool, migrated, seeded, started,
  with_key, with_redis, with_config, seed_operator, start_with, start,
}

abbrev AreSound : Pools → Type 0
AreSound pools = All (λ e. IsSound e.1) pools

module _ (m : Machine)
    (dials : (url : String) (w : World) → m.dialer.connect url ≡ ok w → IsSound w)
    (migrates : (w v : World) → IsSound w → m.migrate w ≡ ok v → IsSound v) where
  after-AreSound :
      {A B : Type 0} (r : Result A × Pools) (go : A → Boot B)
      → AreSound r.1
      → ((a : A) (pools : Pools) → AreSound pools → AreSound (go a pools).1)
      → AreSound (after r go).1
  after-AreSound (err e, pools) go hs keeps = hs
  after-AreSound (ok a, pools) go hs keeps = keeps a pools hs

  migrated-AreSound :
      (id : String) (w : World) (r : Result World) (pools : Pools)
      → m.migrate w ≡ r
      → IsSound w
      → AreSound pools
      → AreSound (migrated m id r pools).1
  migrated-AreSound id w (err e) pools same h hs = hs
  migrated-AreSound id w (ok v) pools same h hs =
      All-put IsSound id v pools hs (migrates w v h same)

  get-migrates :
      (id : String) (pools : Pools)
      → AreSound pools
      → AreSound (migrate_pool m id (get pools id) pools).1
  unfolding get
  get-migrates id pools hs = elim (Option-cases (lookup pools id)) [
    | inl missing ↦ rw (missing, get) hs
    | inr (w, found) ↦
        rw (found, get)
          (migrated-AreSound id w (m.migrate w) pools refl (All-lookup IsSound id w pools hs found)
            hs)
  ]

  register-AreSound :
      (id url : String) (pools : Pools)
      → AreSound pools
      → AreSound (register m.dialer id url pools).1
  unfolding register
  register-AreSound id url pools hs = elim (Result-cases (m.dialer.connect url)) [
    | inl (e, refused) ↦ rw (refused, register) hs
    | inr (w, dialled) ↦
        let known = All-put IsSound id w pools hs (dials url w dialled) in
        elim (Result-cases (m.dialer.ping url)) [
          | inl (e, silent) ↦ rw (dialled, register, silent) hs
          | inr (u, answers) ↦ rw (dialled, register, answers) known
        ]
  ]

  register_all-AreSound :
      (cs : List ConsumerConfig) (pools : Pools)
      → AreSound pools
      → AreSound (register_all m cs pools).1
  unfolding register_all register_consumer
  register_all-AreSound [] pools hs = hs
  register_all-AreSound (c ∷ cs) pools hs =
      after-AreSound (register_consumer m c pools) (λ u. register_all m cs)
        (after-AreSound (register m.dialer c.id c.database_url pools) _
          (register-AreSound c.id c.database_url pools hs) (λ u p ps. get-migrates c.id p ps))
        (λ u p ps. register_all-AreSound cs p ps)

  seeded-AreSound :
      {A : Type 0} (id : String) (r : Result A × World) (pools : Pools)
      → IsSound r.1
      → AreSound pools
      → AreSound (seeded m id r pools).1
  seeded-AreSound id (err e, w) pools h hs = All-put IsSound id w pools hs h
  seeded-AreSound id (ok a, w) pools h hs = All-put IsSound id w pools hs h

  seeds :
      (key : List ℕ) (cfg : Config) (w : World)
      → IsSound w
      → IsSound
          (ensure_operator_client m.env key cfg.operator_client_id cfg.operator_client_name w).1
  seeds key cfg w h =
      let step : Step m.env some_service w
          (ensure_operator_client m.env key cfg.operator_client_id cfg.operator_client_name w).1 =
        Step.ensure key cfg.operator_client_id cfg.operator_client_name in
      IsSound-IsLasting.steps step h

  seed_operator-AreSound :
      (key : List ℕ) (cfg : Config) (pools : Pools)
      → AreSound pools
      → AreSound (seed_operator m key cfg pools).1
  unfolding seed_operator
  seed_operator-AreSound key cfg pools hs = elim (Bool-cases (is_empty cfg.operator_client_id)) [
    | inl none_set ↦ rw none_set hs
    | inr set ↦ rw set (elim (Option-cases (lookup pools cfg.operator_consumer_id)) [
      | inl missing ↦ rw (missing, get) hs
      | inr (w, found) ↦
          rw (found, get)
            (seeded-AreSound cfg.operator_consumer_id
              (ensure_operator_client m.env key cfg.operator_client_id cfg.operator_client_name w)
              pools (seeds key cfg w (All-lookup IsSound cfg.operator_consumer_id w pools hs found))
              hs)
    ])
  ]

  started-AreSound :
      (cfg : Config) (key : List ℕ) (r : Result ⊤) (pools : Pools)
      → AreSound pools
      → AreSound (started m cfg key r pools).1
  started-AreSound cfg key (err e) pools hs = hs
  started-AreSound cfg key (ok u) pools hs = hs

  start_with-AreSound : (cfg : Config) (key : List ℕ) → AreSound (start_with m cfg key).1
  unfolding start_with
  start_with-AreSound cfg key =
      after-AreSound (register_all m cfg.consumers new_registry) _
        (register_all-AreSound cfg.consumers new_registry tt)
        (λ u p ps.
          after-AreSound (seed_operator m key cfg p) _ (seed_operator-AreSound key cfg p ps)
            (λ v q qs. started-AreSound cfg key m.worker q qs))

  start-AreSound : AreSound (start m).1
  unfolding start
  start-AreSound = config (Config.load m.os)
    where
      keyed : (cfg : Config) (r : Result (List ℕ)) → AreSound (with_key m cfg r).1
      keyed cfg (err e) = tt
      keyed cfg (ok key) = start_with-AreSound cfg key

      redis : (cfg : Config) (r : Result String) → AreSound (with_redis m cfg r).1
      redis cfg (err e) = tt
      redis cfg (ok address) = keyed cfg (parse_hex_key m.env.crypto cfg.credential_encryption_key)

      config : (r : Result Config) → AreSound (with_config m r).1
      config (err e) = tt
      config (ok cfg) = redis cfg (m.redis_address cfg.redis_url)

  -- The process starts, over databases that are sound once they are connected and that a migration leaves sound,
  -- and then takes whatever requests over HTTP, tasks of the queue and reconciliation ticks, in whatever order and
  -- whichever statements fail: the database of every consumer is sound (each payment has a positive amount, an id
  -- of its own and a key of its own within its client, the journal balances, every request to pay is backed by a
  -- payment).
  pub process-IsSound :
      (keys : List (String × String)) (g : Server)
      → Run (record { redis = keys; pools = (start m).1 }) g
      → All (λ e. IsSound e.1) g.pools
  process-IsSound keys g r = Run-IsSound _ g start-AreSound r
