-- ===== src/Http/Ledger.antt =====
-- internal/handler/ledger_handler.go
use mkwanja_payment_service.Prelude.{List, map, is_empty, if◌then◌else◌}
use mkwanja_payment_service.Prelude.Int.{ℤ}
use mkwanja_payment_service.Prelude.Result.{Result, ok, err}
use mkwanja_payment_service.Db.Models.{Journal, AccountBalance}
use mkwanja_payment_service.Db.World.{Env}
use mkwanja_payment_service.Service.Ledger
use mkwanja_payment_service.Http.Messages.{Request}
use mkwanja_payment_service.Http.Reply.{
  EntryItem, BalanceItem, Body, Reply, Handler, reply, refuse, respond, answered,
}
use mkwanja_payment_service.Http.Payments.{limit_of, offset_of}

abbrev pub entry_item : Journal → EntryItem
entry_item e = record {
  id = e.id;
  client_id = e.client_id;
  payment_id = e.payment_id;
  account_id = e.account_id;
  entry_type = e.entry_type;
  amount_cents = e.amount_cents;
  currency = e.currency;
  description = e.description;
  created_at = e.created_at;
}

abbrev pub balance_item : AccountBalance → BalanceItem
balance_item b = record {
  account_id = b.account_id;
  total_debits_cents = b.total_debits_cents;
  total_credits_cents = b.total_credits_cents;
  net_cents = b.net_cents;
}

-- The handlers answer for the client that the query names.
abbrev pub for_client : Request → Handler → Handler
for_client r go =
    if is_empty r.client_id
    then answered (refuse 400 "INVALID_REQUEST" "client_id query parameter is required")
    else go

abbrev pub entries_reply : ℤ → ℤ → Result (List Journal) → Reply
entries_reply limit offset (err e) = refuse 500 "INTERNAL" "Failed to list journal entries"
entries_reply limit offset (ok es) = reply 200 (Body.entries (map entry_item es) limit offset)

abbrev pub balances_reply : Result (List AccountBalance) → Reply
balances_reply (err e) = refuse 500 "INTERNAL" "Failed to get account balances"
balances_reply (ok bs) = reply 200 (Body.balances (map balance_item bs))

abbrev pub trial_balance_reply : Result (List AccountBalance) → Reply
trial_balance_reply (err e) = refuse 500 "INTERNAL" "Failed to get trial balance"
trial_balance_reply (ok bs) = reply 200 (Body.trial_balance (map balance_item bs))

module _ (env : Env) (r : Request) where
  -- The bounds of limit and offset are those of the list of payments.
  unfoldable pub list_entries : Handler
  list_entries = for_client r (
      respond (Ledger.list_journal_entries_by_client env r.client_id (limit_of r) (offset_of r))
        (entries_reply (limit_of r) (offset_of r)))

  unfoldable pub get_balances : Handler
  get_balances = for_client r (respond (Ledger.get_account_balances env r.client_id) balances_reply)

  unfoldable pub get_trial_balance : Handler
  get_trial_balance =
      for_client r (respond (Ledger.get_trial_balance env r.client_id) trial_balance_reply)
