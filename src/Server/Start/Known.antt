-- ===== src/Server/Start/Known.antt =====
-- After the start (cmd/server/main.go): the consumers that are let in (internal/config/config.go), and their
-- databases (internal/db/registry.go).
use mathlib.Core.Path.{subst}
use mkwanja_payment_service.Prelude.{
  Option-cases, ⊤, ℕ, String, ◌≡◌, refl, Bool, true, false, ◌||◌, List, [], ◌∷◌, Option, none, some,
  find, any, is_empty, str_eq, eq_iff, Bool-cases, inl, inr, arith, ◌⊎◌, ◌∙◌, ap,
}
use mkwanja_payment_service.Prelude.Result.{Result, ok, err, succeeds, Result-cases}
use mkwanja_payment_service.Crypto.{parse_hex_key}
use mkwanja_payment_service.Config
use mkwanja_payment_service.Config.{
  Config, Surroundings, ConsumerConfig, put_all, new_consumer_registry,
}
use mkwanja_payment_service.Db.World.{World}
use mkwanja_payment_service.Service.Clients.{ensure_operator_client}
use mkwanja_payment_service.Server.Registry.{
  Pools, new_registry, lookup, put, register, get, lookup-put,
}
use mkwanja_payment_service.Server.Start.{
  Machine, Started, Boot, after, register_consumer, register_all, migrated, seed_in, seeded,
  started, with_key, with_redis, with_config, seed_operator, start_with, start,
}

abbrev some_one : {A : Type 0} → Option A → Bool
some_one none = false
some_one (some a) = true

abbrev is_known : String → Pools → Bool
is_known id pools = some_one (lookup pools id)

is_known-put :
    (id d : String) (w : World) (pools : Pools)
    → is_known d (put id w pools) ≡ (str_eq id d || is_known d pools)
is_known-put id d w pools = ground (arith, lookup-put id d w pools)

-- The consumers that the loop over the configuration puts into the map of the middleware.
find-put_all :
    (id : String) (cs : List ConsumerConfig) (m : List (String × ConsumerConfig))
    → some_one (find (λ (e : String × ConsumerConfig). str_eq e.0 id) (put_all cs m)) ≡ (
        any (λ (c : ConsumerConfig). str_eq c.id id) cs
        || some_one (find (λ (e : String × ConsumerConfig). str_eq e.0 id) m))
find-put_all id [] m = refl
find-put_all id (c ∷ cs) m = ground (arith, find-put_all id cs ((c.id, c) ∷ m))

-- A consumer that the middleware lets in is one of the configuration.
validate-listed :
    (os : Surroundings) (cs : List ConsumerConfig) (d secret : String)
    → Config.validate os (new_consumer_registry cs) d secret ≡ true
    → any (λ (c : ConsumerConfig). str_eq c.id d) cs ≡ true
unfolding Config.validate Config.get new_consumer_registry
validate-listed os cs d secret let_in = ground (arith, let_in, find-put_all d cs [])

module _ (m : Machine) (d : String) where
  -- A step of the start that succeeds has `d` among its databases, or `d` was there before.
  abbrev Knows : {A : Type 0} → Bool → Result A × Pools → Type 0
  Knows known (r, pools) = (succeeds r ≡ false) ⊎ (is_known d pools ≡ known)

  migrated-Knows :
      (id : String) (r : Result World) (w : World) (pools : Pools)
      → Knows (str_eq id d || is_known d pools) (migrated m id r (put id w pools))
  migrated-Knows id (err e) w pools = inl refl
  migrated-Knows id (ok v) w pools =
      inr (ground (arith, is_known-put id d v (put id w pools), is_known-put id d w pools))

  register_consumer-Knows :
      (c : ConsumerConfig) (pools : Pools)
      → Knows (str_eq c.id d || is_known d pools) (register_consumer m c pools)
  unfolding register_consumer register get
  register_consumer-Knows c pools = elim (Result-cases (m.dialer.connect c.database_url)) [
    | inl (e, refused) ↦ ground (arith, refused)
    | inr (w, dialled) ↦ ground (
      arith,
      dialled,
      lookup-put c.id c.id w pools,
      eq_iff c.id c.id,
      migrated-Knows c.id (m.migrate w) w pools,
    )
  ]

  register_all-Knows :
      (cs : List ConsumerConfig) (pools : Pools)
      → Knows
          (any (λ (c : ConsumerConfig). str_eq c.id d) cs || is_known d pools)
          (register_all m cs pools)
  unfolding register_all
  register_all-Knows [] pools = inr refl
  register_all-Knows (c ∷ cs) pools = ground (
    arith,
    register_consumer-Knows c pools,
    register_all-Knows cs (register_consumer m c pools).1,
  )

  seeded-Knows :
      {A : Type 0} (id : String) (r : Result A × World) (pools : Pools)
      → is_known d pools ≡ true
      → is_known d (seeded m id r pools).1 ≡ true
  seeded-Knows id (err e, w) pools known = ground (arith, known, is_known-put id d w pools)
  seeded-Knows id (ok a, w) pools known = ground (arith, known, is_known-put id d w pools)

  seed_operator-knows :
      (key : List ℕ) (cfg : Config) (pools : Pools)
      → is_known d pools ≡ true
      → is_known d (seed_operator m key cfg pools).1 ≡ true
  unfolding seed_operator
  seed_operator-knows key cfg pools known = elim (Bool-cases (is_empty cfg.operator_client_id)) [
    | inl none_set ↦ rw none_set known
    | inr set ↦ rw set (seed_in-knows (get pools cfg.operator_consumer_id))
  ]
    where
      seed_in-knows : (r : Result World) → is_known d (seed_in m key cfg r pools).1 ≡ true
      seed_in-knows (err e) = known
      seed_in-knows (ok w) =
          seeded-Knows cfg.operator_consumer_id
            (ensure_operator_client m.env key cfg.operator_client_id cfg.operator_client_name w)
            pools known

  started-Knows :
      (cfg : Config) (key : List ℕ) (worker : Result ⊤) (pools : Pools) (st : Started)
      → (started m cfg key worker pools).0 ≡ ok st
      → ((started m cfg key worker pools).1 ≡ pools)
        × (st.consumers ≡ new_consumer_registry cfg.consumers)
  started-Knows cfg key (err e) pools st h = ground (arith, h)
  started-Knows cfg key (ok _) pools st h = (refl, ground (arith, h))

  -- What a start knows that has come to an end: the consumers are those of a configuration, and each has a database.
  abbrev IsReady : Started → Pools → Type 0
  IsReady st pools =
      (cfg : Config) × (st.consumers ≡ new_consumer_registry cfg.consumers)
      × ((any (λ (c : ConsumerConfig). str_eq c.id d) cfg.consumers ≡ false)
          ⊎ (is_known d pools ≡ true))

  after-ready :
      {A : Type 0} (r : Result A × Pools) (go : A → Boot Started) (st : Started)
      → (after r go).0 ≡ ok st
      → (a : A) × (r.0 ≡ ok a) × ((go a r.1).0 ≡ ok st) × ((after r go).1 ≡ (go a r.1).1)
  after-ready (err e, pools) go st h = ground (arith, h)
  after-ready (ok a, pools) go st h = (a, refl, h, refl)

  start_with-IsReady :
      (cfg : Config) (key : List ℕ) (st : Started)
      → (start_with m cfg key).0 ≡ ok st
      → IsReady st (start_with m cfg key).1
  unfolding start_with
  start_with-IsReady cfg key st h =
      let all = register_all m cfg.consumers new_registry in
      let seeds = seed_operator m key cfg all.1 in
      let (u, done, h', same) =
        after-ready all
          (λ u p. after (seed_operator m key cfg p) (λ v q. started m cfg key m.worker q)) st h in
      let (v, done', h'', same') = after-ready seeds (λ v q. started m cfg key m.worker q) st h' in
      let (left, consumers) = started-Knows cfg key m.worker seeds.1 st h'' in
      let same_pools : (start_with m cfg key).1 ≡ seeds.1 = same ∙ same' ∙ left in
      let listed = any (λ (c : ConsumerConfig). str_eq c.id d) cfg.consumers in
      let pooled : (listed ≡ false) ⊎ (is_known d all.1 ≡ true) =
        ground (arith, done, register_all-Knows cfg.consumers new_registry) in
      (
        cfg,
        consumers,
        elim pooled [
          | inl absent ↦ inl absent
          | inr here ↦ inr (ap (is_known d) same_pools ∙ seed_operator-knows key cfg all.1 here)
        ],
      )

  start-IsReady : (st : Started) → (start m).0 ≡ ok st → IsReady st (start m).1
  unfolding start
  start-IsReady st h = config (Config.load m.os) h
    where
      keyed :
          (cfg : Config) (r : Result (List ℕ))
          → (with_key m cfg r).0 ≡ ok st
          → IsReady st (with_key m cfg r).1
      keyed cfg (err e) h = ground (arith, h)
      keyed cfg (ok key) h = start_with-IsReady cfg key st h

      redis :
          (cfg : Config) (r : Result String)
          → (with_redis m cfg r).0 ≡ ok st
          → IsReady st (with_redis m cfg r).1
      redis cfg (err e) h = ground (arith, h)
      redis cfg (ok address) h =
          keyed cfg (parse_hex_key m.env.crypto cfg.credential_encryption_key) h

      config : (r : Result Config) → (with_config m r).0 ≡ ok st → IsReady st (with_config m r).1
      config (err e) h = ground (arith, h)
      config (ok cfg) h = redis cfg (m.redis_address cfg.redis_url) h

  -- After a start that succeeded, every consumer that the middleware lets in has a database: the handlers never
  -- answer that it is unavailable.
  pub start-serves :
      (st : Started) (secret : String)
      → (start m).0 ≡ ok st
      → Config.validate m.os st.consumers d secret ≡ true
      → (w : World) × (lookup (start m).1 d ≡ some w)
  start-serves st secret h let_in =
      let (cfg, consumers, ready) = start-IsReady st h in
      let listed : any (λ (c : ConsumerConfig). str_eq c.id d) cfg.consumers ≡ true =
        validate-listed m.os cfg.consumers d secret
          (subst (λ r. Config.validate m.os r d secret ≡ true) consumers let_in) in
      elim (Option-cases (lookup (start m).1 d)) [
        | inl missing ↦ ground (arith, listed, ready, missing)
        | inr found ↦ found
      ]
