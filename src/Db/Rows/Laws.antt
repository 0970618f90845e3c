-- ===== src/Db/Rows/Laws.antt =====
-- What an order, a filter and a page keep of the rows of a table.
use mkwanja_payment_service.Prelude.{
  ℕ, zero, suc, ◌≤◌, ◌≡◌, Bool, true, false, refl, any, List, [], ◌∷◌, All, length, take, drop,
  select, ◌⊎◌, inl, inr, Bool-cases, arith,
}
use mkwanja_payment_service.Db.Rows.{insert_row, order_by}

module _ {A : Type 0} (P : A → Type 0) (before : A → A → Bool) where
  insert_row-All : (x : A) (xs : List A) → P x → All P xs → All P (insert_row before x xs)
  unfolding insert_row
  insert_row-All x [] h hs = (h, tt)
  insert_row-All x (y ∷ ys) h (hy, hys) = elim (Bool-cases (before x y)) [
    | inl first ↦ rw first (h, (hy, hys))
    | inr later ↦ rw later (hy, insert_row-All x ys h hys)
  ]

  pub order_by-All : (xs : List A) → All P xs → All P (order_by before xs)
  unfolding order_by
  order_by-All [] hs = tt
  order_by-All (x ∷ xs) (h, hs) = insert_row-All x (order_by before xs) h (order_by-All xs hs)

module _ {A : Type 0} (P : A → Type 0) where
  pub take-All : (n : ℕ) (xs : List A) → All P xs → All P (take n xs)
  take-All zero xs hs = tt
  take-All (suc n) [] hs = tt
  take-All (suc n) (x ∷ xs) (h, hs) = (h, take-All n xs hs)

  pub drop-All : (n : ℕ) (xs : List A) → All P xs → All P (drop n xs)
  drop-All zero xs hs = hs
  drop-All (suc n) [] hs = tt
  drop-All (suc n) (x ∷ xs) (h, hs) = drop-All n xs hs

module _ {A : Type 0} where
  pub length-take : (n : ℕ) (xs : List A) → length (take n xs) ≤ n
  length-take zero xs = omega arith
  length-take (suc n) [] = omega arith
  length-take (suc n) (x ∷ xs) = let h = length-take n xs in omega (arith, h)

  pub select-All :
      (P : A → Type 0) (test : A → Bool)
      → ((x : A) → test x ≡ true → P x)
      → (xs : List A) → All P (select test xs)
  select-All P test f [] = tt
  select-All P test f (x ∷ xs) = elim (Bool-cases (test x)) [
    | inl passes ↦ rw passes (f x passes, select-All P test f xs)
    | inr fails ↦ rw fails (select-All P test f xs)
  ]

module _ {A : Type 0} (before : A → A → Bool) (test : A → Bool) where
  any-insert_row : (x : A) (xs : List A) → any test (insert_row before x xs) ≡ any test (x ∷ xs)
  unfolding insert_row
  any-insert_row x [] = refl
  any-insert_row x (y ∷ ys) = elim (Bool-cases (before x y)) [
    | inl first ↦ rw first refl
    | inr later ↦ rw (later, any-insert_row x ys) (ground arith)
  ]

  pub any-order_by : (xs : List A) → any test (order_by before xs) ≡ any test xs
  unfolding order_by
  any-order_by [] = refl
  any-order_by (x ∷ xs) = rw (any-insert_row x (order_by before xs), any-order_by xs) refl

module _ {A : Type 0} (P : A → Type 0) where
  -- What holds of all rows of an order or of a selection holds of the rows that it came from.
  All-insert_row :
      (before : A → A → Bool) (x : A) (xs : List A)
      → All P (insert_row before x xs)
      → P x × All P xs
  unfolding insert_row
  All-insert_row before x [] (h, hs) = (h, tt)
  All-insert_row before x (y ∷ ys) h = elim (Bool-cases (before x y)) [
    | inl first ↦ rw first at h
    | inr later ↦
        let (hy, rest) : P y × All P (insert_row before x ys) = rw later at h in
        let (hx, hs) = All-insert_row before x ys rest in (hx, (hy, hs))
  ]

  pub All-order_by : (before : A → A → Bool) (xs : List A) → All P (order_by before xs) → All P xs
  unfolding order_by
  All-order_by before [] h = tt
  All-order_by before (x ∷ xs) h =
      let (hx, rest) = All-insert_row before x (order_by before xs) h in
      (hx, All-order_by before xs rest)

  pub All-select :
      (test : A → Bool) (xs : List A)
      → All P (select test xs)
      → All (λ (x : A). (test x ≡ false) ⊎ P x) xs
  All-select test [] h = tt
  All-select test (x ∷ xs) h = elim (Bool-cases (test x)) [
    | inl passes ↦
        let (hx, hs) : P x × All P (select test xs) = rw passes at h in
        (inr hx, All-select test xs hs)
    | inr fails ↦ (inl fails, All-select test xs (rw fails at h))
  ]
