-- ===== src/Service/Reconcile/Settles/Only.antt =====
-- The reconciliation of one payment moves only the rows of payments, when no statement fails
-- (internal/service/reconciliation_service.go).
use mkwanja_payment_service.Prelude.{
  ℕ, ◌≡◌, refl, ◌∙◌, String, false, Option, none, some, find, Bool-cases, Option-cases, inl, inr,
}
use mkwanja_payment_service.Daraja.Messages.{TransactionStatusResponse, Sent}
use mkwanja_payment_service.Prelude.Result.{Result}
use mkwanja_payment_service.Db.Models.{Payment}
use mkwanja_payment_service.Db.World.{World, Env}
use mkwanja_payment_service.Db.Action.{wrapped}
use mkwanja_payment_service.Db.Keeps.{Keeps, Keeps-wrapped, Keeps-query, keeps_rules}
use mkwanja_payment_service.Db.Payments.{has_id}
use mkwanja_payment_service.Db.Clients
use mkwanja_payment_service.Repository.ClientRepo
use mkwanja_payment_service.Service.Initiate.Common.{call}
use mkwanja_payment_service.Service.Settle.Outcome.{complete_payment-unknown, fail_payment-unknown}
use mkwanja_payment_service.Service.Reconcile.{
  ReconciliationService, open_credential, open_security, is_paid, resolve, reconcile_payment,
}
use mkwanja_payment_service.Service.Reconcile.Settles.{resolve-IsSettled}
use mkwanja_payment_service.Service.Reconcile.Settles.Rows.{
  IsMoved, IsMoved-refl, IsMoved-trans, set_where-IsMoved,
}

-- Only the rows of payments move, and the credentials stay.
abbrev pub IsOnly : World → World → Type 0
IsOnly u v = (v.credentials ≡ u.credentials) × IsMoved u.payments v.payments

module _ (env : Env) (s : ReconciliationService) (calm : (n : ℕ) → env.fails n ≡ false) where
  resolve-IsOnly :
      (p : Payment) (answer : TransactionStatusResponse) (u : World)
      → IsOnly u (resolve env s p answer u).1
  unfolding resolve wrapped
  resolve-IsOnly p answer u = elim (Option-cases (find (has_id p.id) u.payments)) [
    | inr (q, found) ↦
        let settled = resolve-IsSettled env s calm p q answer u found in
        (
          settled.credentials,
          rw settled.payments
              (set_where-IsMoved settled.change settled.update settled.settles p.id u.payments),
        )
    | inl missing ↦ elim (Bool-cases (is_paid answer)) [
      | inl paid ↦
          rw
            (
              paid,
              (complete_payment-unknown env u p.id answer.receipt_no answer.conversation_id
                  missing).1,
            )
            (refl, IsMoved-refl u.payments)
      | inr unpaid ↦
          rw (unpaid, (fail_payment-unknown env u p.id _ missing).1) (refl, IsMoved-refl u.payments)
    ]
  ]

  module _ (u0 : World) where
    resolve-keeps :
        (p : Payment) (answer : TransactionStatusResponse)
        → Keeps (IsOnly u0) (resolve env s p answer)
    resolve-keeps p answer = record {
      at = λ u (same, rows).
          let (same', rows') = resolve-IsOnly p answer u in
          (same' ∙ same, IsMoved-trans u0.payments u.payments _ rows rows');
    }

    open_security-keeps :
        (o : Option String) (p : Payment) → Keeps (IsOnly u0) (open_security env s o p)
    unfolding open_security open_credential
    open_security-keeps none p = search keeps_rules
    open_security-keeps (some sealed) p = search keeps_rules

    credentials-keeps :
        (client_id : String) → Keeps (IsOnly u0) (ClientRepo.get_active_credentials env client_id)
    unfolding ClientRepo.get_active_credentials Clients.get_active_credentials
    credentials-keeps client_id = Keeps-wrapped _ _ (Keeps-query env _ (record { at = λ w n h. h }))

    call-keeps :
        (f : ℕ → Result TransactionStatusResponse) (r : Sent) → Keeps (IsOnly u0) (call f r)
    unfolding call
    call-keeps f r = record { at = λ w h. h }

    module _ (consumer_id : String) where
      pub reconcile_payment-keeps :
          (p : Payment) → Keeps (IsOnly u0) (reconcile_payment env s consumer_id p)
      unfolding reconcile_payment open_credential
      reconcile_payment-keeps p =
          search (keeps_rules, credentials-keeps, open_security-keeps, call-keeps, resolve-keeps)
            depth 9
