-- ===== src/Service/Settle.antt =====
-- internal/service/payment_service.go: `CompletePayment`, `FailPayment`, `GetPayment` and
-- `ListPayments`. Logging is left out.
pub mod Outcome
pub mod Books
pub mod Twice
pub mod Ends
use mkwanja_payment_service.Prelude.{⊤, String, List, some, none}
use mkwanja_payment_service.Prelude.Int.{ℤ}
use mkwanja_payment_service.Db.Models.{
  Payment, PaymentDirection, inbound, outbound, pending, completed, failed, null_string,
}
use mkwanja_payment_service.Db.World.{Env}
use mkwanja_payment_service.Db.Action.{Action, pure, attempt, wrapped, ◌>>=◌, ◌>>◌}
use mkwanja_payment_service.Db.Payments.{CreatePaymentEventParams}
use mkwanja_payment_service.Repository.PaymentRepo
use mkwanja_payment_service.Service.Ledger.{write_inbound_entries, write_outbound_entries}

abbrev pub completion_event : String → CreatePaymentEventParams
completion_event payment_id = record {
  payment_id = payment_id;
  from_status = some pending;
  to_status = completed;
  reason = none;
  raw = none;
}

abbrev pub failure_event : String → String → CreatePaymentEventParams
failure_event payment_id reason = record {
  payment_id = payment_id;
  from_status = some pending;
  to_status = failed;
  reason = null_string reason;
  raw = none;
}

module _ (env : Env) where
  -- switch p.Direction; the column has no third value, so `default` is never taken.
  unfoldable pub write_entries : Payment → PaymentDirection → Action ⊤
  write_entries p inbound = write_inbound_entries env p
  write_entries p outbound = write_outbound_entries env p

  unfoldable pub complete_payment : String → String → String → Action ⊤
  unfolding write_entries
  complete_payment payment_id receipt tx_id = do
    p ←
        wrapped "complete payment"
          (PaymentRepo.complete_payment env payment_id (null_string receipt) (null_string tx_id))
    attempt (PaymentRepo.create_payment_event env (completion_event payment_id))
    attempt (write_entries p p.direction)
    pure tt

  unfoldable pub fail_payment : String → String → Action ⊤
  fail_payment payment_id reason = do
    wrapped "fail payment" (PaymentRepo.fail_payment env payment_id)
    attempt (PaymentRepo.create_payment_event env (failure_event payment_id reason))
    pure tt

  unfoldable pub get_payment : String → Action Payment
  get_payment id = wrapped "get payment" (PaymentRepo.get_payment_by_id env id)

  unfoldable pub list_payments : String → ℤ → ℤ → Action (List Payment)
  list_payments client_id limit offset =
      PaymentRepo.list_payments_by_client env client_id limit offset
