-- ===== src/Tests/Parts.antt =====
-- The theorems about the journal, phone numbers and encryption, at concrete inputs.
use mkwanja_payment_service.Prelude.{
  ◌≡◌, refl, ◌↔◌, true, false, List, [], ◌∷◌, some, none, ◌⊎◌, arith,
}
use mkwanja_payment_service.Prelude.Int.{ℤ, pos, wrap64, ◌+ℤ◌}
use mkwanja_payment_service.Prelude.Result.{ok, succeeds}
use mkwanja_payment_service.Crypto.{encrypt, decrypt}
use mkwanja_payment_service.Crypto.RoundTrip.{decrypt-encrypt}
use mkwanja_payment_service.Db.Models.{Journal, EntryType}
use mkwanja_payment_service.Db.Journal.{CreateJournalEntryParams, balances_of}
use mkwanja_payment_service.Db.Journal.Balance.{
  sum_column, debits, credits, is_client, account_balances-total,
}
use mkwanja_payment_service.Domain.Ledger.{JournalEntry, verify_balance}
use mkwanja_payment_service.Domain.Ledger.Sound.{
  exact_debits, exact_credits, verify_balance_iff, verify_balance-exact,
}
use mkwanja_payment_service.Domain.Phone.{matches, is_digit, normalise_phone}
use mkwanja_payment_service.Domain.Phone.Forms.{form_7, form_1, normalise_phone-again}
use mkwanja_payment_service.Daraja.Phone.{normalize_phone}
use mkwanja_payment_service.Daraja.Phone.Agrees.{normalise_phone-normalize_phone}
use mkwanja_payment_service.Prelude.{codes}
use mkwanja_payment_service.Repository.JournalRepo.{create_journal_entry_bulk}
use mkwanja_payment_service.Repository.JournalRepo.Atomic.{
  written, create_journal_entry_bulk-written,
}
use mkwanja_payment_service.Tests.Data.{plain, calm, busy}

abbrev line : EntryType → ℤ → JournalEntry
line entry_type amount_cents = record {
  client_id = "c1";
  payment_id = "p1";
  account_id = "mpesa.till";
  entry_type = entry_type;
  amount_cents = amount_cents;
  currency = "KES";
  description = "test";
}

abbrev pair : List JournalEntry
pair = line EntryType.debit (pos 500) ∷ line EntryType.credit (pos 500) ∷ []

verify_balance_iff_example :
    (verify_balance pair ≡ ok tt) ↔ (wrap64 (exact_debits pair) ≡ wrap64 (exact_credits pair))
verify_balance_iff_example = verify_balance_iff pair

verify_balance-exact_example :
    (verify_balance pair ≡ ok tt) ↔ (exact_debits pair ≡ exact_credits pair)
unfolding ◌+ℤ◌
verify_balance-exact_example =
    verify_balance-exact pair (ground arith, ground arith) (ground arith, ground arith)

abbrev booking : List CreateJournalEntryParams
booking =
    record {
      client_id = "c1";
      payment_id = "p1";
      account_id = "mpesa.till";
      entry_type = EntryType.debit;
      amount_cents = pos 500;
      currency = "KES";
      description = "test";
      reversal_of = none;
    }
    ∷ []

create_journal_entry_bulk-written_example :
    let (r, w') = create_journal_entry_bulk calm booking busy in
    ((succeeds r ≡ true) × (w'.journal ≡ written calm booking 1 2 []))
    ⊎ ((succeeds r ≡ false) × (w'.journal ≡ []))
create_journal_entry_bulk-written_example = create_journal_entry_bulk-written calm booking busy

-- An entry.
abbrev lost : Journal
lost = record {
  id = 1;
  client_id = "c1";
  payment_id = "p1";
  account_id = "mpesa.till";
  entry_type = EntryType.debit;
  amount_cents = pos 500;
  currency = "KES";
  description = "test";
  reversal_of = none;
  created_at = 0;
}

account_balances-total_example :
    (sum_column (λ b. b.total_debits_cents) (balances_of "c1" (lost ∷ []))
      ≡ debits (is_client "c1") (lost ∷ []))
    × (sum_column (λ b. b.total_credits_cents) (balances_of "c1" (lost ∷ []))
        ≡ credits (is_client "c1") (lost ∷ []))
account_balances-total_example = account_balances-total "c1" (lost ∷ [])

normalise_phone-again_example :
    ((matches form_7 (codes "254112345678") ≡ true)
      × (normalise_phone "254112345678" ≡ ok "254112345678"))
    ⊎ ((matches form_1 (codes "254112345678") ≡ true)
        × (succeeds (normalise_phone "254112345678") ≡ false))
unfolding normalise_phone
normalise_phone-again_example = normalise_phone-again "0112345678" "254112345678" refl

normalise_phone-normalize_phone_example : normalize_phone is_digit "+254112345678" ≡ "254112345678"
unfolding normalise_phone
normalise_phone-normalize_phone_example =
    normalise_phone-normalize_phone is_digit (λ c h. h) refl "+254112345678" "254112345678" refl

decrypt-encrypt_example :
    (encrypt plain (some (7 ∷ 8 ∷ [])) [] "hi" ≡ ok "sealed")
    × (decrypt plain [] "sealed" ≡ ok "hi")
decrypt-encrypt_example = decrypt-encrypt plain [] (7 ∷ 8 ∷ []) "hi" refl refl refl refl refl
