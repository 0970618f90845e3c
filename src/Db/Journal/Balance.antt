-- ===== src/Db/Journal/Balance.antt =====
-- Sums over the journal, the invariant that debits equal credits, and what the view account_balances
-- makes of it.
use mkwanja_payment_service.Prelude.{
  String, ◌≡◌, refl, ◌∙◌, ap, Bool, true, false, List, [], ◌∷◌, inl, inr, select, arith, str_eq,
  eq_iff, Bool-cases, if◌then◌else◌,
}
use mkwanja_payment_service.Prelude.Int.{ℤ, pos, pos_part, neg_part, ◌+ℤ◌, ◌-ℤ◌, int_laws}
use mkwanja_payment_service.Db.Models.{Journal, AccountBalance, EntryType}
use mkwanja_payment_service.Db.Journal.{
  debit_of, credit_of, net_of, post, no_balance, is_balance_of, group, account_balances,
  balances_of,
}

-- The debits and the credits of the entries whose client and payment are asked for.
abbrev pub debits : (String → String → Bool) → List Journal → ℤ
debits q [] = pos 0
debits q (j ∷ js) = if q j.client_id j.payment_id then debit_of j +ℤ debits q js else debits q js

abbrev pub credits : (String → String → Bool) → List Journal → ℤ
credits q [] = pos 0
credits q (j ∷ js) =
    if q j.client_id j.payment_id then credit_of j +ℤ credits q js else credits q js

-- Whatever clients and payments are picked, their debits equal their credits: it holds for the
-- journal as a whole, for each client and for each payment.
abbrev pub IsBalanced : List Journal → Type 0
IsBalanced js = (q : String → String → Bool) → debits q js ≡ credits q js

debit_of-debit : (j : Journal) → j.entry_type ≡ EntryType.debit → debit_of j ≡ j.amount_cents
debit_of-debit j e = ground arith

credit_of-debit : (j : Journal) → j.entry_type ≡ EntryType.debit → credit_of j ≡ pos 0
credit_of-debit j e = ground arith

debit_of-credit : (j : Journal) → j.entry_type ≡ EntryType.credit → debit_of j ≡ pos 0
debit_of-credit j e = ground arith

credit_of-credit : (j : Journal) → j.entry_type ≡ EntryType.credit → credit_of j ≡ j.amount_cents
credit_of-credit j e = ground arith

-- Two entries of one payment with one amount, a debit and a credit, keep the balance.
pub pair-IsBalanced :
    (d c : Journal) (js : List Journal)
    → d.entry_type ≡ EntryType.debit
    → c.entry_type ≡ EntryType.credit
    → d.amount_cents ≡ c.amount_cents
    → d.client_id ≡ c.client_id
    → d.payment_id ≡ c.payment_id
    → IsBalanced js
    → IsBalanced (c ∷ d ∷ js)
pair-IsBalanced d c js ed ec amount client payment h q =
    elim (Bool-cases (q c.client_id c.payment_id)) [
      | inl picked ↦
          simp
            (
              client,
              payment,
              picked,
              debit_of-debit d ed,
              credit_of-debit d ed,
              debit_of-credit c ec,
              credit_of-credit c ec,
              amount,
              h q,
            )
            (omega int_laws)
      | inr other ↦ simp (client, payment, other, h q)
    ]

-- The total of a column of the view.
abbrev pub sum_column : (AccountBalance → ℤ) → List AccountBalance → ℤ
sum_column column [] = pos 0
sum_column column (b ∷ bs) = column b +ℤ sum_column column bs

-- The same sum over the entries of a client.
abbrev pub sum_of : (Journal → ℤ) → String → List Journal → ℤ
sum_of of c [] = pos 0
sum_of of c (j ∷ js) = if str_eq j.client_id c then of j +ℤ sum_of of c js else sum_of of c js

abbrev pub of_client : String → List AccountBalance → List AccountBalance
of_client c bs = select (λ (b : AccountBalance). str_eq b.client_id c) bs

abbrev pub is_client : String → String → String → Bool
is_client c client_id payment_id = str_eq client_id c

is_balance_of-client :
    (j : Journal) (b : AccountBalance) → is_balance_of j b ≡ true → b.client_id ≡ j.client_id
is_balance_of-client j b h = ground (arith, eq_iff b.client_id j.client_id)

-- What one entry adds to the rows of its own client, and to nobody else's. The column is any that
-- `post` adds to.
module _ (column : AccountBalance → ℤ) (of : Journal → ℤ)
    (adds : (j : Journal) (b : AccountBalance) → column (post j b) ≡ column b +ℤ of j)
    (starts : (j : Journal) → column (no_balance j) ≡ pos 0) where
  group-sum :
      (c : String) (j : Journal) (bs : List AccountBalance)
      → sum_column column (of_client c (group j bs)) ≡ (
          if str_eq j.client_id c
          then of j +ℤ sum_column column (of_client c bs)
          else sum_column column (of_client c bs))
  unfolding group
  group-sum c j [] = elim (Bool-cases (str_eq j.client_id c)) [
    | inl own ↦ simp (own, adds j (no_balance j), starts j) (omega int_laws)
    | inr other ↦ simp other
  ]
  group-sum c j (b ∷ bs) = elim (Bool-cases (is_balance_of j b)) [
    | inl same ↦ elim (Bool-cases (str_eq j.client_id c)) [
      | inl own ↦
          let k : str_eq b.client_id c ≡ true = rw (is_balance_of-client j b same) own in
          simp (same, k, own, adds j b) (omega int_laws)
      | inr other ↦
          let k : str_eq b.client_id c ≡ false = rw (is_balance_of-client j b same) other in
          simp (same, k, other)
    ]
    | inr away ↦ elim (Bool-cases (str_eq j.client_id c)) [
      | inl own ↦ elim (Bool-cases (str_eq b.client_id c)) [
        | inl k ↦ simp (away, k, group-sum c j bs, own) (omega int_laws)
        | inr k ↦ simp (away, k, group-sum c j bs, own)
      ]
      | inr other ↦ elim (Bool-cases (str_eq b.client_id c)) [
        | inl k ↦ simp (away, k, group-sum c j bs, other)
        | inr k ↦ simp (away, k, group-sum c j bs, other)
      ]
    ]
  ]

  account_balances-sum :
      (c : String) (js : List Journal)
      → sum_column column (of_client c (account_balances js)) ≡ sum_of of c js
  unfolding account_balances
  account_balances-sum c [] = refl
  account_balances-sum c (j ∷ js) =
      simp (group-sum c j (account_balances js), account_balances-sum c js)

sum_of-debits : (c : String) (js : List Journal) → sum_of debit_of c js ≡ debits (is_client c) js
sum_of-debits c [] = refl
sum_of-debits c (j ∷ js) = simp (sum_of-debits c js)

sum_of-credits : (c : String) (js : List Journal) → sum_of credit_of c js ≡ credits (is_client c) js
sum_of-credits c [] = refl
sum_of-credits c (j ∷ js) = simp (sum_of-credits c js)

-- For every client, the debit column of its rows in the view adds up to the debits of its entries in
-- the journal, and the credit column to the credits.
pub account_balances-total :
    (c : String) (js : List Journal)
    → (sum_column (λ b. b.total_debits_cents) (balances_of c js) ≡ debits (is_client c) js)
      × (sum_column (λ b. b.total_credits_cents) (balances_of c js) ≡ credits (is_client c) js)
account_balances-total c js = (
  account_balances-sum (λ b. b.total_debits_cents) debit_of (λ j b. refl) (λ j. refl) c js
      ∙ sum_of-debits c js,
  account_balances-sum (λ b. b.total_credits_cents) credit_of (λ j b. refl) (λ j. refl) c js
      ∙ sum_of-credits c js,
)

net_of-add : (j : Journal) → net_of j +ℤ credit_of j ≡ debit_of j
unfolding ◌+ℤ◌ ◌-ℤ◌
net_of-add j = ground arith

add_pairs : (n c d s k t : ℤ) → n +ℤ c ≡ d → s +ℤ k ≡ t → (n +ℤ s) +ℤ (c +ℤ k) ≡ d +ℤ t
add_pairs n c d s k t e f = rw (← e, ← f) (omega int_laws)

sum_of-net :
    (c : String) (js : List Journal)
    → sum_of net_of c js +ℤ credits (is_client c) js ≡ debits (is_client c) js
sum_of-net c [] = omega int_laws
sum_of-net c (j ∷ js) = elim (Bool-cases (str_eq j.client_id c)) [
  | inl own ↦ simp own (add_pairs _ _ _ _ _ _ (net_of-add j) (sum_of-net c js))
  | inr other ↦ simp (other, sum_of-net c js)
]

zero_of_add : (n k : ℤ) → n +ℤ k ≡ k → n ≡ pos 0
zero_of_add n k e = omega (int_laws, ap pos_part e, ap neg_part e)

-- The net column of a client's rows adds up to zero when the journal is balanced.
pub net-zero :
    (c : String) (js : List Journal)
    → IsBalanced js
    → sum_column (λ b. b.net_cents) (balances_of c js) ≡ pos 0
net-zero c js h =
    account_balances-sum (λ b. b.net_cents) net_of (λ j b. refl) (λ j. refl) c js
    ∙ zero_of_add _ (credits (is_client c) js) (sum_of-net c js ∙ h (is_client c))
