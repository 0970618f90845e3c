-- ===== src/Domain/Ledger.antt =====
-- internal/domain/journal.go: the check that debits equal credits, in Go's int64 arithmetic.
pub mod Sound
use mkwanja_payment_service.Prelude.{⊤, String, List, [], ◌∷◌, not, is_empty, if◌then◌else◌}
use mkwanja_payment_service.Prelude.Int.{ℤ, pos, ◌+ℤ◌, wrap64, leb_ℤ, eq_ℤ}
use mkwanja_payment_service.Prelude.Result.{Result, ok, err, msg, ◌fails_with◌then◌}
use mkwanja_payment_service.Db.Models.{EntryType}

-- The fields of `domain.JournalEntry` that the rules read.
pub record JournalEntry : Type 0 where
  pub client_id : String
  pub payment_id : String
  pub account_id : String
  pub entry_type : EntryType
  pub amount_cents : ℤ
  pub currency : String
  pub description : String

unfoldable pub validate : JournalEntry → Result ⊤
validate e =
    is_empty e.client_id fails_with "client_id is required"
    then is_empty e.payment_id fails_with "payment_id is required"
    then is_empty e.account_id fails_with "account_id is required"
    then leb_ℤ e.amount_cents (pos 0) fails_with "amount_cents must be positive"
    then is_empty e.description fails_with "description is required"
    then ok tt

-- The loop: `debits += e.AmountCents` or `credits += e.AmountCents`, which wrap around.
unfoldable pub totals : List JournalEntry → ℤ → ℤ → ℤ × ℤ
totals [] debits credits = (debits, credits)
totals (e ∷ es) debits credits = elim e.entry_type [
  | EntryType.debit ↦ totals es (wrap64 (debits +ℤ e.amount_cents)) credits
  | EntryType.credit ↦ totals es debits (wrap64 (credits +ℤ e.amount_cents))
]

unfoldable pub verify_balance : List JournalEntry → Result ⊤
unfolding totals
verify_balance entries =
    let (debits, credits) = totals entries (pos 0) (pos 0) in
    if not (eq_ℤ debits credits) then err (msg "journal does not balance") else ok tt
