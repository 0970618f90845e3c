-- ===== src/Server/Registry.antt =====
-- internal/db/registry.go: a database for each consumer. The databases and their connections are outside.
use mkwanja_payment_service.Prelude.{
  ⊤, String, ◌≡◌, refl, List, ◌∷◌, [], Option, none, some, map, str_eq, eq_iff, All, ◌<>◌,
  if◌then◌else◌, arith, Bool-cases, inl, inr,
}
use mkwanja_payment_service.Prelude.Result.{Result, ok, err, msg, wrap}
use mkwanja_payment_service.Db.World.{World}

-- The map from consumers to databases, each consumer once.
abbrev pub Pools : Type 0
Pools = List (String × World)

abbrev pub new_registry : Pools
new_registry = []

abbrev pub lookup : Pools → String → Option World
lookup [] id = none
lookup (e ∷ es) id = if str_eq e.0 id then some e.1 else lookup es id

-- `r.pools[consumerID] = pool`, and what a call leaves in a database.
unfoldable pub put : String → World → Pools → Pools
put id w [] = (id, w) ∷ []
put id w (e ∷ es) = let rest = put id w es in if str_eq e.0 id then (id, w) ∷ es else e ∷ rest

-- pgxpool.New and pool.Ping for a URL, with what the database holds.
pub record Dialer : Type 0 where
  pub connect : String → Result World
  pub ping : String → Result ⊤

unfoldable pub register : Dialer → String → String → Pools → Result ⊤ × Pools
unfolding put
register dialer id url pools = elim (dialer.connect url) [
  | err e ↦ (err (wrap ("connect " <> id) e), pools)
  | ok w ↦ elim (dialer.ping url) [
    | err e ↦ (err (wrap ("ping " <> id) e), pools)
    | ok _ ↦ (ok tt, put id w pools)
  ]
]

unfoldable pub get : Pools → String → Result World
get pools id = elim (lookup pools id) [
  | none ↦ err (msg ("no db for consumer: " <> id))
  | some w ↦ ok w
]

-- `Ping`: the answer of each pool, by its consumer.
unfoldable pub ping_all : (String → Result ⊤) → Pools → List (String × Result ⊤)
ping_all answers pools = map (λ e. (e.0, answers e.0)) pools

-- A database with nothing in it, where there is none.
abbrev pub blank : World
blank = record {
  tick = 0;
  payments = [];
  events = [];
  event_seq = 0;
  journal = [];
  journal_seq = 0;
  accounts = [];
  clients = [];
  credentials = [];
  paystack_credentials = [];
  routes = [];
  sent = [];
}

pub lookup-put :
    (id d : String) (w : World) (pools : Pools)
    → lookup (put id w pools) d ≡ (if str_eq id d then some w else lookup pools d)
unfolding put
lookup-put id d w [] = refl
lookup-put id d w (e ∷ es) =
    ground (arith, lookup-put id d w es, eq_iff e.0 id, eq_iff e.0 d, eq_iff id d)

pub put-same :
    (id : String) (w : World) (pools : Pools) → lookup pools id ≡ some w → put id w pools ≡ pools
unfolding put
put-same id w [] h = ground (arith, h)
put-same id w (e ∷ es) h = elim (Bool-cases (str_eq e.0 id)) [
  | inl here ↦ ground (arith, here, h, (eq_iff e.0 id).0 here)
  | inr there ↦ ground (arith, there, h, put-same id w es (ground (arith, there, h)))
]

module _ (P : World → Type 0) where
  pub All-lookup :
      (id : String) (w : World) (pools : Pools)
      → All (λ e. P e.1) pools
      → lookup pools id ≡ some w
      → P w
  All-lookup id w [] hs h = ground (arith, h)
  All-lookup id w (e ∷ es) (p, ps) h = ground (arith, p, h, All-lookup id w es ps)

  pub All-put :
      (id : String) (w : World) (pools : Pools)
      → All (λ e. P e.1) pools
      → P w
      → All (λ e. P e.1) (put id w pools)
  unfolding put
  All-put id w [] hs h = (h, tt)
  All-put id w (e ∷ es) (p, ps) h = ground (arith, p, ps, h, All-put id w es ps h)
