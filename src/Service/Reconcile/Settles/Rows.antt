-- ===== src/Service/Reconcile/Settles/Rows.antt =====
-- What a reconciliation cycle may make of the rows of payments (internal/service/reconciliation_service.go).
use mkwanja_payment_service.Prelude.{
  ⊤, String, ◌≡◌, refl, ◌∙◌, Bool, true, false, List, [], ◌∷◌, All, All-map, any, str_eq, eq_iff,
  Bool-cases, ◌⊎◌, inl, inr, arith, if◌then◌else◌,
}
use mkwanja_payment_service.Db.Models.{Payment, PaymentStatus, completed, failed}
use mkwanja_payment_service.Db.Payments.{has_id, set_where}
use mkwanja_payment_service.Db.Payments.Table.{IsUpdate}
use mkwanja_payment_service.Service.Settle.Ends.{IsSame}

abbrev pub IsEnded : PaymentStatus → Type 0
IsEnded status = (status ≡ completed) ⊎ (status ≡ failed)

-- The same payments in the same places, each with its status or with one that ends it.
abbrev pub IsMoved : List Payment → List Payment → Type 0
IsMoved [] [] = ⊤
IsMoved (p ∷ ps) (q ∷ qs) =
    (IsSame p q × ((q.status ≡ p.status) ⊎ IsEnded q.status)) × IsMoved ps qs
IsMoved _ _ = ⊥

-- Every row with this id is ended.
abbrev pub IsOver : String → List Payment → Type 0
IsOver id qs = All (λ (q : Payment). (str_eq q.id id ≡ false) ⊎ IsEnded q.status) qs

pub IsMoved-refl : (ps : List Payment) → IsMoved ps ps
IsMoved-refl [] = tt
IsMoved-refl (p ∷ ps) = (((refl, refl, refl, refl), inl refl), IsMoved-refl ps)

pub IsMoved-trans : (ps qs rs : List Payment) → IsMoved ps qs → IsMoved qs rs → IsMoved ps rs
IsMoved-trans [] [] [] hs ks = tt
IsMoved-trans [] [] (r ∷ rs) hs ks = ks
IsMoved-trans [] (q ∷ qs) rs hs ks = absurd hs
IsMoved-trans (p ∷ ps) [] rs hs ks = absurd hs
IsMoved-trans (p ∷ ps) (q ∷ qs) [] hs ks = ks
IsMoved-trans (p ∷ ps) (q ∷ qs) (r ∷ rs) (((i, c, k, a), h), hs) (((j, d, l, b), g), ks) = (
  (
    (j ∙ i, d ∙ c, l ∙ k, b ∙ a),
    elim g [
      | inr ended ↦ inr ended
      | inl still ↦ elim h [ inl same ↦ inl (still ∙ same) | inr ended ↦ inr (rw still ended) ]
    ],
  ),
  IsMoved-trans ps qs rs hs ks,
)

pub any-IsMoved :
    (id : String) (ps qs : List Payment)
    → IsMoved ps qs
    → any (has_id id) ps ≡ true
    → any (has_id id) qs ≡ true
any-IsMoved id [] [] hs h = h
any-IsMoved id [] (q ∷ qs) hs h = absurd hs
any-IsMoved id (p ∷ ps) [] hs h = absurd hs
any-IsMoved id (p ∷ ps) (q ∷ qs) (((i, c, k, a), s), hs) h =
    rw i (ground (arith, h, any-IsMoved id ps qs hs))

pub IsOver-IsMoved :
    (id : String) (ps qs : List Payment) → IsMoved ps qs → IsOver id ps → IsOver id qs
IsOver-IsMoved id [] [] hs over = tt
IsOver-IsMoved id [] (q ∷ qs) hs over = absurd hs
IsOver-IsMoved id (p ∷ ps) [] hs over = absurd hs
IsOver-IsMoved id (p ∷ ps) (q ∷ qs) (((i, c, k, a), s), hs) (o, over) = (
  elim o [
    | inl other ↦ inl (rw i other)
    | inr ended ↦ elim s [ inl same ↦ inr (rw same ended) | inr now ↦ inr now ]
  ],
  IsOver-IsMoved id ps qs hs over,
)

module _ (change : Payment → Payment) (update : IsUpdate change)
    (settles : (q : Payment) → IsEnded (change q).status) (id : String) where
  pub set_where-IsMoved : (ps : List Payment) → IsMoved ps (set_where id change ps)
  set_where-IsMoved [] = tt
  set_where-IsMoved (p ∷ ps) = (row, set_where-IsMoved ps)
    where
      row :
          let q = if has_id id p then change p else p in
          IsSame p q × ((q.status ≡ p.status) ⊎ IsEnded q.status)
      row = elim (Bool-cases (has_id id p)) [
        | inl here ↦
            rw here
              ((update.id p, update.client_id p, update.key p, update.amount p), inr (settles p))
        | inr away ↦ rw away ((refl, refl, refl, refl), inl refl)
      ]

  pub set_where-IsOver : (ps : List Payment) → IsOver id (set_where id change ps)
  set_where-IsOver [] = tt
  set_where-IsOver (p ∷ ps) = (row, set_where-IsOver ps)
    where
      row :
          let q = if has_id id p then change p else p in (str_eq q.id id ≡ false) ⊎ IsEnded q.status
      row = elim (Bool-cases (has_id id p)) [
        | inl here ↦ rw here (inr (settles p))
        | inr away ↦ rw away (inl away)
      ]

-- The rows after a cycle: the same payments in the same places, and those that pass the test are ended.
abbrev pub AreEnded : (Payment → Bool) → List Payment → List Payment → Type 0
AreEnded test [] [] = ⊤
AreEnded test (p ∷ ps) (q ∷ qs) =
    (IsSame p q × ((test p ≡ false) ⊎ IsEnded q.status)) × AreEnded test ps qs
AreEnded test _ _ = ⊥

pub AreEnded-IsOver :
    (test : Payment → Bool) (ps qs : List Payment)
    → IsMoved ps qs
    → All (λ (p : Payment). (test p ≡ false) ⊎ IsOver p.id qs) ps
    → AreEnded test ps qs
AreEnded-IsOver test [] [] hs os = tt
AreEnded-IsOver test [] (q ∷ qs) hs os = absurd hs
AreEnded-IsOver test (p ∷ ps) [] hs os = absurd hs
AreEnded-IsOver test (p ∷ ps) (q ∷ qs) (((i, c, k, a), s), hs) (o, os) = (
  (
    (i, c, k, a),
    elim o [
      | inl idle ↦ inl idle
      | inr (here, over) ↦ elim here [
        | inl other ↦ ground (arith, other, i, eq_iff q.id p.id)
        | inr ended ↦ inr ended
      ]
    ],
  ),
  AreEnded-IsOver test ps qs hs
      (All-map ps (λ x h. elim h [ inl idle ↦ inl idle | inr (here, over) ↦ inr over ]) os),
)

-- Every row is found by its id.
pub All-present : (ps : List Payment) → All (λ (p : Payment). any (has_id p.id) ps ≡ true) ps
All-present [] = tt
All-present (p ∷ ps) = (
  rw ((eq_iff p.id p.id).1 refl) refl,
  All-map ps (λ q here. ground (arith, here)) (All-present ps),
)
