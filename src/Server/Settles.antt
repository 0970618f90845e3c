-- ===== src/Server/Settles.antt =====
-- A reconciliation tick over the databases of all consumers (`RunOnce` of
-- internal/service/reconciliation_service.go).
use mkwanja_payment_service.Prelude.{
  ⊤, Bool, ◌&&◌, ℕ, ◌-◌, String, ◌≡◌, refl, false, [], ◌∷◌, All, ◌⊎◌,
}
use mkwanja_payment_service.Db.Models.{Payment}
use mkwanja_payment_service.Db.World.{World, Env}
use mkwanja_payment_service.Service.Reconcile.{ReconciliationService, two_minutes, run_once}
use mkwanja_payment_service.Service.Reconcile.Settles.{IsAnswered}
use mkwanja_payment_service.Service.Reconcile.Settles.Due.{is_due, reconcile_consumer-settles}
use mkwanja_payment_service.Service.Reconcile.Settles.Rows.{AreEnded}
use mkwanja_payment_service.Server.Registry.{Pools}
use mkwanja_payment_service.Server.{Server, reconcile_tick}

module _ (envs : String → Env) (s : ReconciliationService) (asked : Payment → Bool) where
  -- The payments of a database that a cycle takes and that are asked about: pending, made more than two minutes
  -- before the cycle, and among those that the test takes.
  abbrev pub is_asked : String → World → Payment → Bool
  is_asked id w p = is_due ((envs id).now w.tick - two_minutes) p && asked p

  -- The client of each of these has active credentials that open, and the provider answers about it.
  abbrev pub IsAnswering : String × World → Type 0
  IsAnswering e =
      All (λ (p : Payment). (is_asked e.0 e.1 p ≡ false) ⊎ IsAnswered (envs e.0) s e.0 e.1 p)
        e.1.payments

  -- The same consumers, each with the same payments, of which these are ended.
  abbrev pub AreSettled : Pools → Pools → Type 0
  AreSettled [] [] = ⊤
  AreSettled (e ∷ es) (e' ∷ es') =
      (e'.0 ≡ e.0) × AreEnded (is_asked e.0 e.1) e.1.payments e'.1.payments × AreSettled es es'
  AreSettled _ _ = ⊥

  module _ (calm : (id : String) (n : ℕ) → (envs id).fails n ≡ false) where
    run_once-settles :
        (pools : Pools) → All IsAnswering pools → AreSettled pools (run_once envs s pools)
    unfolding run_once
    run_once-settles [] answered = tt
    run_once-settles (e ∷ es) (here, answered) = (
      refl,
      reconcile_consumer-settles (envs e.0) s (calm e.0) e.0 asked e.1 here,
      run_once-settles es answered,
    )

    -- After a tick in which no statement fails, for any choice of payments such that the client of each chosen
    -- payment that is due (pending, and made more than two minutes before) has active credentials that open and the
    -- provider answers about it: every database has the same payments in the same places, with their ids, clients,
    -- keys and amounts, and each chosen one that was due is completed or failed, whatever happens to the others.
    pub reconcile_tick-settles :
        (f : Server) → All IsAnswering f.pools → AreSettled f.pools (reconcile_tick envs s f).pools
    unfolding reconcile_tick
    reconcile_tick-settles f answered = run_once-settles f.pools answered
