-- ===== src/Domain/Ledger/Sound.antt =====
-- What the balance check of internal/domain/journal.go decides.
use mkwanja_payment_service.Prelude.{◌≡◌, refl, ◌↔◌, true, List, [], ◌∷◌, arith, inl, inr, ◌⊎◌}
use mkwanja_payment_service.Prelude.Int.{
  ℤ, pos, negsuc, ◌+ℤ◌, wrap64, wrap64-eq, IsInt64, eq_ℤ, int_laws,
}
use mkwanja_payment_service.Prelude.Result.{ok}
use mkwanja_payment_service.Db.Models.{EntryType}
use mkwanja_payment_service.Domain.Ledger.{JournalEntry, totals, verify_balance}

-- The sums without a bound.
abbrev pub exact_debits : List JournalEntry → ℤ
exact_debits [] = pos 0
exact_debits (e ∷ es) = elim e.entry_type [
  | EntryType.debit ↦ e.amount_cents +ℤ exact_debits es
  | EntryType.credit ↦ exact_debits es
]

abbrev pub exact_credits : List JournalEntry → ℤ
exact_credits [] = pos 0
exact_credits (e ∷ es) = elim e.entry_type [
  | EntryType.debit ↦ exact_credits es
  | EntryType.credit ↦ e.amount_cents +ℤ exact_credits es
]

-- Wrapping early does not change what is left in the end.
wrap64-add : (a b : ℤ) → wrap64 (wrap64 a +ℤ b) ≡ wrap64 (a +ℤ b)
unfolding wrap64 ◌+ℤ◌
wrap64-add (pos a) (pos b) = ground arith
wrap64-add (pos a) (negsuc b) = ground arith
wrap64-add (negsuc a) (pos b) = ground arith
wrap64-add (negsuc a) (negsuc b) = ground arith

regroup : (a b c : ℤ) → a +ℤ b +ℤ c ≡ a +ℤ (b +ℤ c)
regroup a b c = omega int_laws

add_zero : (a : ℤ) → a +ℤ pos 0 ≡ a
add_zero a = omega int_laws

zero_add : (a : ℤ) → pos 0 +ℤ a ≡ a
zero_add a = omega int_laws

EntryType-cases : (t : EntryType) → (t ≡ EntryType.debit) ⊎ (t ≡ EntryType.credit)
EntryType-cases EntryType.debit = inl refl
EntryType-cases EntryType.credit = inr refl

-- The loop computes the exact sums, wrapped.
totals-eq :
    (es : List JournalEntry) (d c : ℤ)
    → totals es (wrap64 d) (wrap64 c)
      ≡ (wrap64 (d +ℤ exact_debits es), wrap64 (c +ℤ exact_credits es))
unfolding totals
totals-eq [] d c = rw (add_zero d, add_zero c)
totals-eq (e ∷ es) d c = elim (EntryType-cases e.entry_type) [
  | inl debit ↦
      rw (debit, totals, wrap64-add d e.amount_cents, ← regroup d e.amount_cents (exact_debits es))
        (totals-eq es (d +ℤ e.amount_cents) c)
  | inr credit ↦
      rw
        (credit, totals, wrap64-add c e.amount_cents, ← regroup c e.amount_cents (exact_credits es))
        (totals-eq es d (c +ℤ e.amount_cents))
]

wrap64-zero : wrap64 (pos 0) ≡ pos 0
unfolding wrap64
wrap64-zero = refl

eq_ℤ_iff : (a b : ℤ) → (eq_ℤ a b ≡ true) ↔ (a ≡ b)
eq_ℤ_iff a b = ground arith

-- The check accepts a list of entries exactly when their exact sums agree modulo 2^64.
pub verify_balance_iff :
    (es : List JournalEntry)
    → (verify_balance es ≡ ok tt) ↔ (wrap64 (exact_debits es) ≡ wrap64 (exact_credits es))
unfolding verify_balance
verify_balance_iff es =
    let e : totals es (pos 0) (pos 0) ≡ (wrap64 (exact_debits es), wrap64 (exact_credits es)) =
      simp (zero_add, wrap64-zero) at (totals-eq es (pos 0) (pos 0)) in
    rw (e, verify_balance)
      (ground (arith, eq_ℤ_iff (wrap64 (exact_debits es)) (wrap64 (exact_credits es))))

-- When both sums fit an int64, the check accepts exactly the balanced lists.
pub verify_balance-exact :
    (es : List JournalEntry)
    → IsInt64 (exact_debits es)
    → IsInt64 (exact_credits es)
    → (verify_balance es ≡ ok tt) ↔ (exact_debits es ≡ exact_credits es)
verify_balance-exact es d c =
    rw (← wrap64-eq (exact_debits es) d, ← wrap64-eq (exact_credits es) c) (verify_balance_iff es)
