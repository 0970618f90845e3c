-- ===== src/Service/Reconcile/Cycle.antt =====
-- A reconciliation cycle (internal/service/reconciliation_service.go): its invariants, its errors, and the
-- payments that it takes.
use mkwanja_payment_service.Prelude.{
  ℕ, ◌-◌, ◌<◌, String, ◌≡◌, ◌&&◌, List, [], ◌∷◌, Option, none, some, All, select, ltb, leb, inl,
  inr, Bool-cases, arith, ◌<>◌,
}
use mkwanja_payment_service.Prelude.Result.{ok}
use mkwanja_payment_service.Daraja.Messages.{
  Sent, TransactionStatusRequest, TransactionStatusResponse,
}
use mkwanja_payment_service.Db.Models.{Payment, pending}
use mkwanja_payment_service.Db.World.{World, Env}
use mkwanja_payment_service.Db.Action.{attempt, wrapped, query}
use mkwanja_payment_service.Db.Keeps.{
  Keeps, Keeps-wrapped, Keeps-query, Keeps-attempt, Keeps-bind, keeps_rules,
}
use mkwanja_payment_service.Db.Rows.{order_by}
use mkwanja_payment_service.Db.Rows.Laws.{order_by-All, select-All}
use mkwanja_payment_service.Db.Payments
use mkwanja_payment_service.Db.Payments.{is_pending}
use mkwanja_payment_service.Repository.PaymentRepo
use mkwanja_payment_service.Repository.ClientRepo
use mkwanja_payment_service.Service.Preserved.{
  IsPreserved, get_active_credentials-Keeps, call-Keeps,
}
use mkwanja_payment_service.Service.Steps.{complete-Keeps, fail-Keeps}
use mkwanja_payment_service.Service.Reconcile.{
  ReconciliationService, two_minutes, open_credential, open_security, resolve, reconcile_payment,
  reconcile_all, reconcile_consumer,
}

module _ {P : World → Type 0} {Allowed : Sent → Type 0} (inv : IsPreserved P Allowed)
    (status : (r : TransactionStatusRequest) → Allowed (Sent.status r)) (env : Env)
    (s : ReconciliationService) where
  open_credential-Keeps :
      (what sealed : String) (p : Payment) → Keeps P (open_credential env s what sealed p)
  unfolding open_credential
  open_credential-Keeps what sealed p = search keeps_rules

  open_security-Keeps : (o : Option String) (p : Payment) → Keeps P (open_security env s o p)
  unfolding open_security
  open_security-Keeps none p = search keeps_rules
  open_security-Keeps (some sealed) p = search keeps_rules

  resolve-Keeps :
      (p : Payment) (answer : TransactionStatusResponse) → Keeps P (resolve env s p answer)
  unfolding resolve
  resolve-Keeps p answer = search (keeps_rules, complete-Keeps inv env, fail-Keeps inv env)

  module _ (consumer_id : String) where
    reconcile_payment-Keeps : (p : Payment) → Keeps P (reconcile_payment env s consumer_id p)
    unfolding reconcile_payment ClientRepo.get_active_credentials
    reconcile_payment-Keeps p =
        search
          (
            keeps_rules,
            get_active_credentials-Keeps inv env,
            open_security-Keeps,
            call-Keeps inv env,
            status,
            resolve-Keeps,
          )
          depth 9

    reconcile_all-Keeps : (ps : List Payment) → Keeps P (reconcile_all env s consumer_id ps)
    unfolding reconcile_all
    reconcile_all-Keeps [] = record { at = λ w h. h }
    reconcile_all-Keeps (p ∷ ps) =
        Keeps-bind (attempt (reconcile_payment env s consumer_id p))
          (λ r. reconcile_all env s consumer_id ps)
          (Keeps-attempt (reconcile_payment env s consumer_id p) (reconcile_payment-Keeps p))
          (λ r. reconcile_all-Keeps ps)

    list_pending-Keeps :
        (cutoff : ℕ) → Keeps P (PaymentRepo.list_pending_payments_older_than env cutoff)
    unfolding PaymentRepo.list_pending_payments_older_than Payments.list_pending_payments_older_than
    list_pending-Keeps cutoff = Keeps-wrapped _ _ (Keeps-query env _ inv.timeless)

    pub reconcile_consumer-Keeps : Keeps P (reconcile_consumer env s consumer_id)
    unfolding reconcile_consumer
    reconcile_consumer-Keeps = record {
      at = λ w h.
          (Keeps-bind
              (wrapped ("list pending payments for " <> consumer_id)
                (PaymentRepo.list_pending_payments_older_than env (env.now w.tick - two_minutes)))
              (reconcile_all env s consumer_id)
              (Keeps-wrapped _ _ (list_pending-Keeps (env.now w.tick - two_minutes)))
              reconcile_all-Keeps).at
            w h;
    }

-- A payment that the reconciliation may take.
abbrev pub IsDue : ℕ → Payment → Type 0
IsDue cutoff p = (p.status ≡ pending) × (p.created_at < cutoff)

select-IsDue :
    (cutoff : ℕ) (ps : List Payment)
    → All
        (IsDue cutoff)
        (select (λ (p : Payment). is_pending p.status && ltb p.created_at cutoff) ps)
select-IsDue cutoff ps =
    select-All (IsDue cutoff) _ (λ p due. (ground (arith, due), ground (arith, due))) ps

-- The payments that a cycle takes are pending and were made before the cutoff.
pub list_pending-IsDue :
    (env : Env) (cutoff : ℕ) (w : World) (ps : List Payment)
    → (PaymentRepo.list_pending_payments_older_than env cutoff w).0 ≡ ok ps
    → All (IsDue cutoff) ps
unfolding PaymentRepo.list_pending_payments_older_than Payments.list_pending_payments_older_than
    query wrapped
list_pending-IsDue env cutoff w ps e = elim (Bool-cases (env.fails w.tick)) [
  | inl down ↦ ground (arith, down, e)
  | inr up ↦
      let rows =
        order_by (λ (p q : Payment). leb p.created_at q.created_at)
          (select (λ (p : Payment). is_pending p.status && ltb p.created_at cutoff) w.payments) in
      let same : ok rows ≡ ok ps = rw up at e in
      let equal : rows ≡ ps = cc in
      rw (← equal) (order_by-All (IsDue cutoff) _ _ (select-IsDue cutoff w.payments))
]
