-- ===== src/Service/Reconcile/Settles/Due.antt =====
-- A reconciliation cycle ends the due payments that the provider answers about, when no statement fails
-- (internal/service/reconciliation_service.go): the payments of a cycle, one after the other.
use mkwanja_payment_service.Prelude.{
  ℕ, ◌+◌, ◌-◌, ◌≡◌, refl, ◌∙◌, String, Bool, true, false, ◌&&◌, List, [], ◌∷◌, none, some, find,
  any, All, All-map, select, Bool-cases, Option-cases, ltb, leb, ◌⊎◌, inl, inr, arith,
}
use mkwanja_payment_service.Db.Models.{Payment}
use mkwanja_payment_service.Db.World.{World, Env}
use mkwanja_payment_service.Db.Action.{◌>>=◌, query, wrapped}
use mkwanja_payment_service.Db.Rows.{order_by}
use mkwanja_payment_service.Db.Rows.Laws.{order_by-All, All-order_by, All-select}
use mkwanja_payment_service.Db.Payments
use mkwanja_payment_service.Db.Payments.{has_id, is_pending}
use mkwanja_payment_service.Repository.PaymentRepo
use mkwanja_payment_service.Service.Reconcile.{
  ReconciliationService, two_minutes, reconcile_payment, reconcile_all, reconcile_consumer,
}
use mkwanja_payment_service.Service.Reconcile.Settles.{IsAnswered, reconcile_payment-IsSettled}
use mkwanja_payment_service.Service.Reconcile.Settles.Rows.{
  AreEnded, AreEnded-IsOver, All-present, IsOver, IsMoved-refl, IsMoved-trans, any-IsMoved,
  IsOver-IsMoved, set_where-IsOver,
}
use mkwanja_payment_service.Service.Reconcile.Settles.Only.{IsOnly, reconcile_payment-keeps}

-- status = 'pending' AND created_at < $1
abbrev pub is_due : ℕ → Payment → Bool
is_due cutoff p = is_pending p.status && ltb p.created_at cutoff

module _ (env : Env) (s : ReconciliationService) (calm : (n : ℕ) → env.fails n ≡ false) where
  module _ (consumer_id : String) (asked : Payment → Bool) where
    -- Not asked about, or the provider answers and the row is there.
    abbrev IsReady : World → Payment → Type 0
    IsReady u p =
        (asked p ≡ false)
        ⊎ (IsAnswered env s consumer_id u p × (any (has_id p.id) u.payments ≡ true))

    IsAnswered-as :
        (u v : World) (p : Payment)
        → v.credentials ≡ u.credentials
        → IsAnswered env s consumer_id u p
        → IsAnswered env s consumer_id v p
    IsAnswered-as u v p same a = record {
      creds = a.creds;
      key = a.key;
      secret = a.secret;
      passkey = a.passkey;
      security = a.security;
      answer = a.answer;
      active = rw same a.active;
      opens_key = a.opens_key;
      opens_secret = a.opens_secret;
      opens_passkey = a.opens_passkey;
      opens_security = a.opens_security;
      answers = a.answers;
    }

    IsAnswered-tick :
        (u : World) (n : ℕ) (p : Payment)
        → IsAnswered env s consumer_id u p
        → IsAnswered env s consumer_id (record u { tick = n }) p
    IsAnswered-tick u n p a = IsAnswered-as u (record u { tick = n }) p refl a

    IsReady-move : (u v : World) (p : Payment) → IsOnly u v → IsReady u p → IsReady v p
    IsReady-move u v p (same, rows) (inl idle) = inl idle
    IsReady-move u v p (same, rows) (inr (a, present)) =
        inr (IsAnswered-as u v p same a, any-IsMoved p.id u.payments v.payments rows present)

    find-any :
        (test : Payment → Bool) (rows : List Payment)
        → any test rows ≡ true
        → (q : Payment) × (find test rows ≡ some q)
    find-any test rows h = elim (Option-cases (find test rows)) [
      | inl missing ↦ absurd (found-none rows h missing)
      | inr found ↦ found
    ]
      where
        found-none : (qs : List Payment) → any test qs ≡ true → find test qs ≡ none → ⊥
        found-none [] h m = ground (arith, h)
        found-none (q ∷ qs) h m = ground (arith, h, m, found-none qs)

    -- One payment that is asked about: its row is ended.
    payment-IsOver :
        (p : Payment) (u : World)
        → IsReady u p
        → (asked p ≡ false) ⊎ IsOver p.id (reconcile_payment env s consumer_id p u).1.payments
    payment-IsOver p u (inl idle) = inl idle
    payment-IsOver p u (inr (a, present)) =
        let (q, found) = find-any (has_id p.id) u.payments present in
        let settled = reconcile_payment-IsSettled env s calm consumer_id p q u a found in
        inr (
          rw settled.payments
            (set_where-IsOver settled.change settled.update settled.settles p.id u.payments))

    reconcile_all-ends :
        (ps : List Payment) (u : World)
        → All (IsReady u) ps
        → let v = (reconcile_all env s consumer_id ps u).1 in
          IsOnly u v × All (λ (p : Payment). (asked p ≡ false) ⊎ IsOver p.id v.payments) ps
    unfolding reconcile_all ◌>>=◌
    reconcile_all-ends [] u ready = ((refl, IsMoved-refl u.payments), tt)
    reconcile_all-ends (p ∷ ps) u (h, ready) =
        let v = (reconcile_payment env s consumer_id p u).1 in
        let z = (reconcile_all env s consumer_id ps v).1 in
        let first : IsOnly u v =
          (reconcile_payment-keeps env s calm u consumer_id p).at u
            (refl, IsMoved-refl u.payments) in
        let (rest, overs) =
          reconcile_all-ends ps v (All-map ps (λ r k. IsReady-move u v r first k) ready) in
        (
          (rest.0 ∙ first.0, IsMoved-trans u.payments v.payments z.payments first.1 rest.1),
          (
            elim (payment-IsOver p u h) [
              | inl idle ↦ inl idle
              | inr over ↦ inr (IsOver-IsMoved p.id v.payments z.payments rest.1 over)
            ],
            overs,
          ),
        )

    IsReady-select :
        (cutoff : ℕ) (u : World) (rows : List Payment)
        → All (λ (p : Payment). any (has_id p.id) u.payments ≡ true) rows
        → All
            (λ (p : Payment).
              ((is_due cutoff p && asked p) ≡ false) ⊎ IsAnswered env s consumer_id u p)
            rows
        → All (IsReady u) (select (is_due cutoff) rows)
    IsReady-select cutoff u [] ps hs = tt
    IsReady-select cutoff u (p ∷ rows) (present, ps) (h, hs) =
        let rest = IsReady-select cutoff u rows ps hs in
        elim (Bool-cases (is_due cutoff p)) [
          | inr idle ↦ rw idle rest
          | inl due ↦ elim h [
            | inl quiet ↦ rw due (inl (rw due at quiet), rest)
            | inr answered ↦ rw due (inr (answered, present), rest)
          ]
        ]

    -- A cycle in which no statement fails. Afterwards the rows are the same payments, and each one
    -- that was due and is asked about is completed or failed, whatever the test of those is that are asked about,
    -- when the client of each of these has active credentials that open and the provider answers about it.
    pub reconcile_consumer-settles :
        (w : World)
        → let due = is_due (env.now w.tick - two_minutes) in
          All
            (λ (p : Payment). ((due p && asked p) ≡ false) ⊎ IsAnswered env s consumer_id w p)
            w.payments
          → AreEnded
              (λ p. due p && asked p)
              w.payments
              (reconcile_consumer env s consumer_id w).1.payments
    unfolding reconcile_consumer ◌>>=◌ PaymentRepo.list_pending_payments_older_than
        Payments.list_pending_payments_older_than query wrapped
    reconcile_consumer-settles w answered =
        let due = is_due (env.now w.tick - two_minutes) in
        let u : World = record w { tick = w.tick + 1 } in
        let before = λ (p q : Payment). leb p.created_at q.created_at in
        let todo = order_by before (select due w.payments) in
        let ready =
          IsReady-select (env.now w.tick - two_minutes) u w.payments (All-present w.payments) (
            All-map w.payments
              (λ p h. elim h [
                | inl quiet ↦ inl quiet
                | inr a ↦ inr (IsAnswered-tick w (w.tick + 1) p a)
              ])
              answered) in
        let (only, overs) =
          reconcile_all-ends todo u
            (order_by-All (IsReady u) before (select due w.payments) ready) in
        let z = (reconcile_all env s consumer_id todo u).1 in
        let P : Payment → Type 0 = λ p. (asked p ≡ false) ⊎ IsOver p.id z.payments in
        let back =
          All-select P due w.payments (All-order_by P before (select due w.payments) overs) in
        rw (calm w.tick) (
          AreEnded-IsOver (λ p. due p && asked p) w.payments z.payments only.1
            (All-map w.payments
              (λ p h. elim h [
                | inl idle ↦ inl (rw idle refl)
                | inr (inl idle) ↦ inl (ground (arith, idle))
                | inr (inr over) ↦ inr over
              ])
              back))
