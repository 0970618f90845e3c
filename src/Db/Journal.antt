-- ===== src/Db/Journal.antt =====
-- internal/db/generated/journal.sql.go and journal_accounts.sql.go: the statements on journal and
-- journal_accounts, the transaction around a bulk write, and the view account_balances of
-- internal/db/migrations/consumer/005_journal.sql. New rows stand first.
pub mod Balance
use mkwanja_payment_service.Prelude.{
  ℕ, ◌+◌, String, Bool, true, not, ◌&&◌, List, [], ◌∷◌, Option, none, some, select, find, any, leb,
  str_eq, ◌==◌, if◌then◌else◌,
}
use mkwanja_payment_service.Prelude.Int.{ℤ, pos, ltb_ℤ, ◌+ℤ◌, ◌-ℤ◌}
use mkwanja_payment_service.Prelude.Result.{ok, err, sql, constraint, no_rows}
use mkwanja_payment_service.Db.Models.{
  Journal, JournalAccount, AccountBalance, AccountType, NormalBalance, EntryType,
}
use mkwanja_payment_service.Db.World.{World, Env}
use mkwanja_payment_service.Db.Action.{Action, statement, query}
use mkwanja_payment_service.Db.Rows.{order_by, page}
use mkwanja_payment_service.Db.Payments.{has_id, has_client}

pub record CreateJournalEntryParams : Type 0 where
  pub client_id : String
  pub payment_id : String
  pub account_id : String
  pub entry_type : EntryType
  pub amount_cents : ℤ
  pub currency : String
  pub description : String
  pub reversal_of : Option ℕ

pub record CreateJournalAccountParams : Type 0 where
  pub id : String
  pub client_id : String
  pub name : String
  pub account_type : AccountType
  pub normal_balance : NormalBalance
  pub description : Option String

-- PRIMARY KEY (client_id, id) of journal_accounts
abbrev pub is_account : String → String → JournalAccount → Bool
is_account client_id id a = str_eq a.client_id client_id && str_eq a.id id

-- REFERENCES journal(id)
abbrev pub refers : Option ℕ → List Journal → Bool
refers none entries = true
refers (some id) entries = any (λ (j : Journal). j.id == id) entries

-- The row of an entry, for the id that it draws and the statement that inserts it.
abbrev pub entry_row : Env → CreateJournalEntryParams → ℕ → ℕ → Journal
entry_row env e id tick = record {
  id = id;
  client_id = e.client_id;
  payment_id = e.payment_id;
  account_id = e.account_id;
  entry_type = e.entry_type;
  amount_cents = e.amount_cents;
  currency = e.currency;
  description = e.description;
  reversal_of = e.reversal_of;
  created_at = env.now tick;
}

abbrev pub new_entry : Env → CreateJournalEntryParams → World → Journal
new_entry env e w = entry_row env e w.journal_seq w.tick

-- Whether the constraints of the table let an entry in.
abbrev pub may_enter : CreateJournalEntryParams → World → Bool
may_enter e w =
    ltb_ℤ (pos 0) e.amount_cents
    && any (has_id e.payment_id) w.payments
    && any (is_account e.client_id e.account_id) w.accounts
    && refers e.reversal_of w.journal

-- The id is drawn from the sequence before the constraints are checked.
unfoldable pub insert_entry : Env → CreateJournalEntryParams → Action Journal
insert_entry env e w =
    if may_enter e w
    then (
      ok (new_entry env e w),
      record w { journal_seq = w.journal_seq + 1; journal = new_entry env e w ∷ w.journal },
    )
    else (err (sql (constraint "journal")), record w { journal_seq = w.journal_seq + 1 })

-- CASE WHEN entry_type = 'debit' THEN amount_cents ELSE 0 END, and the other two columns
abbrev pub debit_of : Journal → ℤ
debit_of j = elim j.entry_type [ EntryType.debit ↦ j.amount_cents | EntryType.credit ↦ pos 0 ]

abbrev pub credit_of : Journal → ℤ
credit_of j = elim j.entry_type [ EntryType.debit ↦ pos 0 | EntryType.credit ↦ j.amount_cents ]

abbrev pub net_of : Journal → ℤ
net_of j = elim j.entry_type [
  | EntryType.debit ↦ j.amount_cents
  | EntryType.credit ↦ pos 0 -ℤ j.amount_cents
]

-- One entry, added to the sums of the row of its client and account in the view.
abbrev pub post : Journal → AccountBalance → AccountBalance
post j b = record b {
  total_debits_cents = b.total_debits_cents +ℤ debit_of j;
  total_credits_cents = b.total_credits_cents +ℤ credit_of j;
  net_cents = b.net_cents +ℤ net_of j;
}

abbrev pub no_balance : Journal → AccountBalance
no_balance j = record {
  client_id = j.client_id;
  account_id = j.account_id;
  total_debits_cents = pos 0;
  total_credits_cents = pos 0;
  net_cents = pos 0;
}

abbrev pub is_balance_of : Journal → AccountBalance → Bool
is_balance_of j b = str_eq b.client_id j.client_id && str_eq b.account_id j.account_id

-- GROUP BY client_id, account_id
unfoldable pub group : Journal → List AccountBalance → List AccountBalance
group j [] = post j (no_balance j) ∷ []
group j (b ∷ bs) = if is_balance_of j b then post j b ∷ bs else b ∷ group j bs

unfoldable pub account_balances : List Journal → List AccountBalance
unfolding group
account_balances [] = []
account_balances (j ∷ js) = group j (account_balances js)

abbrev pub balances_of : String → List Journal → List AccountBalance
balances_of client_id js =
    select (λ (b : AccountBalance). str_eq b.client_id client_id) (account_balances js)

module _ (env : Env) where
  unfoldable pub create_journal_entry : CreateJournalEntryParams → Action Journal
  unfolding insert_entry statement
  create_journal_entry e = statement env (insert_entry env e)

  unfoldable pub get_trial_balance : String → Action (List AccountBalance)
  get_trial_balance client_id = query env λ w. ok (balances_of client_id w.journal)

  unfoldable pub get_account_balances : String → Action (List AccountBalance)
  get_account_balances client_id = query env λ w. ok (balances_of client_id w.journal)

  -- ORDER BY created_at DESC LIMIT $2 OFFSET $3
  unfoldable pub list_journal_entries_by_client : String → ℤ → ℤ → Action (List Journal)
  list_journal_entries_by_client client_id limit offset = query env λ w.
      let mine = select (λ (j : Journal). str_eq j.client_id client_id) w.journal in
      page limit offset (order_by (λ p q. leb q.created_at p.created_at) mine)

  -- ORDER BY id
  unfoldable pub list_journal_entries_by_payment : String → Action (List Journal)
  list_journal_entries_by_payment payment_id = query env λ w.
      let mine = select (λ (j : Journal). str_eq j.payment_id payment_id) w.journal in
      ok (order_by (λ p q. leb p.id q.id) mine)

  unfoldable pub create_journal_account : CreateJournalAccountParams → Action JournalAccount
  unfolding statement
  create_journal_account a = statement env λ w.
      let row : JournalAccount = record {
        id = a.id;
        client_id = a.client_id;
        name = a.name;
        account_type = a.account_type;
        normal_balance = a.normal_balance;
        description = a.description;
        created_at = env.now w.tick;
      } in
      if any (is_account a.client_id a.id) w.accounts
      then (err (sql (constraint "journal_accounts_pkey")), w)
      else if not (has_client a.client_id w)
      then (err (sql (constraint "journal_accounts_client_id_fkey")), w)
      else (ok row, record w { accounts = row ∷ w.accounts })

  unfoldable pub get_journal_account : String → String → Action JournalAccount
  get_journal_account client_id id = query env λ w.
      elim (find (is_account client_id id) w.accounts) [ none ↦ err (sql no_rows) | some a ↦ ok a ]

  -- ORDER BY id, in the order that the database gives to texts
  unfoldable pub list_journal_accounts :
      (String → String → Bool) → String → Action (List JournalAccount)
  list_journal_accounts before client_id = query env λ w.
      let mine = select (λ (a : JournalAccount). str_eq a.client_id client_id) w.accounts in
      ok (order_by (λ a b. before a.id b.id) mine)
