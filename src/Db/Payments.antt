-- ===== src/Db/Payments.antt =====
-- internal/db/generated/payments.sql.go: the statements on payments and payment_events, with the
-- constraints of internal/db/migrations/consumer/003_payments.sql. New rows stand first.
pub mod Table
use mkwanja_payment_service.Prelude.{
  ℕ, String, Bool, true, false, not, ◌&&◌, List, ◌∷◌, map, Option, none, some, find, select, any,
  leb, ltb, ◌+◌, str_eq, if◌then◌else◌,
}
use mkwanja_payment_service.Prelude.Int.{ℤ, pos, ltb_ℤ}
use mkwanja_payment_service.Prelude.Result.{Result, ok, err, sql, no_rows, constraint}
use mkwanja_payment_service.Db.Models.{
  Payment, PaymentEvent, PaymentProvider, PaymentType, PaymentDirection, PaymentStatus, pending,
  completed, failed, Client,
}
use mkwanja_payment_service.Db.World.{World, Env}
use mkwanja_payment_service.Db.Action.{Action, statement, query}
use mkwanja_payment_service.Db.Rows.{order_by, page}

pub record CreatePaymentParams : Type 0 where
  pub client_id : String
  pub idempotency_key : String
  pub provider : PaymentProvider
  pub payment_type : PaymentType
  pub direction : PaymentDirection
  pub amount_cents : ℤ
  pub currency : String
  pub phone_number : Option String
  pub receiver_shortcode : Option String
  pub reference : String
  pub description : Option String
  pub metadata : Option String

pub record CreatePaymentEventParams : Type 0 where
  pub payment_id : String
  pub from_status : Option PaymentStatus
  pub to_status : PaymentStatus
  pub reason : Option String
  pub raw : Option String

-- WHERE id = $1
abbrev pub has_id : String → Payment → Bool
has_id id p = str_eq p.id id

-- WHERE client_id = $1 AND idempotency_key = $2
abbrev pub has_key : String → String → Payment → Bool
has_key client_id key p = str_eq p.client_id client_id && str_eq p.idempotency_key key

abbrev pub has_client : String → World → Bool
has_client id w = any (λ (c : Client). str_eq c.id id) w.clients

-- The row that an INSERT makes, with the defaults of its table.
abbrev pub new_payment : Env → CreatePaymentParams → World → Payment
new_payment env p w = record {
  id = env.uuid w.tick;
  client_id = p.client_id;
  idempotency_key = p.idempotency_key;
  provider = p.provider;
  payment_type = p.payment_type;
  direction = p.direction;
  status = pending;
  amount_cents = p.amount_cents;
  currency = p.currency;
  phone_number = p.phone_number;
  receiver_shortcode = p.receiver_shortcode;
  reference = p.reference;
  description = p.description;
  provider_request_id = none;
  provider_tx_id = none;
  provider_receipt = none;
  provider_raw = none;
  callback_delivered = false;
  metadata = p.metadata;
  created_at = env.now w.tick;
  updated_at = env.now w.tick;
  completed_at = none;
}

unfoldable pub insert_payment : Env → CreatePaymentParams → Action Payment
insert_payment env p w =
    if not (ltb_ℤ (pos 0) p.amount_cents)
    then (err (sql (constraint "payments_amount_cents_check")), w)
    else if any (has_id (env.uuid w.tick)) w.payments
    then (err (sql (constraint "payments_pkey")), w)
    else if any (has_key p.client_id p.idempotency_key) w.payments
    then (err (sql (constraint "payments_client_id_idempotency_key_key")), w)
    else if not (has_client p.client_id w)
    then (err (sql (constraint "payments_client_id_fkey")), w)
    else (ok (new_payment env p w), record w { payments = new_payment env p w ∷ w.payments })

-- UPDATE payments SET ... WHERE id = $1 RETURNING ...
abbrev pub set_where : String → (Payment → Payment) → List Payment → List Payment
set_where id change ps = map (λ p. if has_id id p then change p else p) ps

unfoldable pub update_payment : String → (Payment → Payment) → Action Payment
update_payment id change w = elim (find (has_id id) w.payments) [
  | none ↦ (err (sql no_rows), w)
  | some p ↦ (ok (change p), record w { payments = set_where id change w.payments })
]

-- The changes that the UPDATE statements make to a row.
abbrev pub as_completed : ℕ → Option String → Option String → Payment → Payment
as_completed now receipt tx_id p = record p {
  status = completed;
  provider_receipt = receipt;
  provider_tx_id = tx_id;
  completed_at = some now;
  updated_at = now;
}

abbrev pub as_failed : ℕ → Payment → Payment
as_failed now p = record p { status = failed; updated_at = now }

abbrev pub with_status : ℕ → PaymentStatus → Payment → Payment
with_status now status p = record p { status = status; updated_at = now }

abbrev pub with_request_id : ℕ → Option String → Option String → Payment → Payment
with_request_id now request_id tx_id p = record p {
  provider_request_id = request_id;
  provider_tx_id = tx_id;
  updated_at = now;
}

abbrev pub is_pending : PaymentStatus → Bool
is_pending pending = true
is_pending _ = false

-- `QueryRowContext` and `Scan`: no row is `sql.ErrNoRows`.
abbrev pub one_row : Option Payment → Result Payment
one_row none = err (sql no_rows)
one_row (some p) = ok p

module _ (env : Env) where
  unfoldable pub create_payment : CreatePaymentParams → Action Payment
  unfolding insert_payment statement
  create_payment p = statement env (insert_payment env p)

  unfoldable pub complete_payment : String → Option String → Option String → Action Payment
  unfolding update_payment statement
  complete_payment id receipt tx_id =
      statement env λ w. update_payment id (as_completed (env.now w.tick) receipt tx_id) w

  unfoldable pub fail_payment : String → Action Payment
  unfolding update_payment statement
  fail_payment id = statement env λ w. update_payment id (as_failed (env.now w.tick)) w

  unfoldable pub update_payment_status : String → PaymentStatus → Action Payment
  unfolding update_payment statement
  update_payment_status id status =
      statement env λ w. update_payment id (with_status (env.now w.tick) status) w

  unfoldable pub update_provider_request_id :
      String → Option String → Option String → Action Payment
  unfolding update_payment statement
  update_provider_request_id id request_id tx_id =
      statement env λ w. update_payment id (with_request_id (env.now w.tick) request_id tx_id) w

  unfoldable pub get_payment_by_id : String → Action Payment
  get_payment_by_id id = query env λ w. one_row (find (has_id id) w.payments)

  unfoldable pub get_payment_by_idempotency_key : String → String → Action Payment
  get_payment_by_idempotency_key client_id key =
      query env λ w. one_row (find (has_key client_id key) w.payments)

  -- ORDER BY created_at DESC LIMIT $2 OFFSET $3
  unfoldable pub list_payments_by_client : String → ℤ → ℤ → Action (List Payment)
  list_payments_by_client client_id limit offset = query env λ w.
      let mine = select (λ (p : Payment). str_eq p.client_id client_id) w.payments in
      page limit offset (order_by (λ p q. leb q.created_at p.created_at) mine)

  -- WHERE status = 'pending' AND created_at < $1 ORDER BY created_at ASC
  unfoldable pub list_pending_payments_older_than : ℕ → Action (List Payment)
  list_pending_payments_older_than cutoff = query env λ w.
      let old =
        select (λ (p : Payment). is_pending p.status && ltb p.created_at cutoff) w.payments in
      ok (order_by (λ p q. leb p.created_at q.created_at) old)

  -- payment_events.payment_id references payments(id). The id is drawn before the check.
  unfoldable pub create_payment_event : CreatePaymentEventParams → Action PaymentEvent
  unfolding statement
  create_payment_event e = statement env λ w.
      let row : PaymentEvent = record {
        id = w.event_seq;
        payment_id = e.payment_id;
        from_status = e.from_status;
        to_status = e.to_status;
        reason = e.reason;
        raw = e.raw;
        created_at = env.now w.tick;
      } in
      if any (has_id e.payment_id) w.payments
      then (ok row, record w { event_seq = w.event_seq + 1; events = row ∷ w.events })
      else (
        err (sql (constraint "payment_events_payment_id_fkey")),
        record w { event_seq = w.event_seq + 1 },
      )
