-- ===== src/Repository/PaymentRepo.antt =====
-- internal/repository/payment_repo.go
use mkwanja_payment_service.Prelude.{ℕ, String, List, Option}
use mkwanja_payment_service.Prelude.Int.{ℤ}
use mkwanja_payment_service.Db.Models.{Payment, PaymentEvent, PaymentStatus}
use mkwanja_payment_service.Db.World.{Env}
use mkwanja_payment_service.Db.Action.{Action, wrapped}
use mkwanja_payment_service.Db.Payments
use mkwanja_payment_service.Db.Payments.{CreatePaymentParams, CreatePaymentEventParams}

module _ (env : Env) where
  unfoldable pub create_payment : CreatePaymentParams → Action Payment
  create_payment p = wrapped "create payment" (Payments.create_payment env p)

  unfoldable pub get_payment_by_id : String → Action Payment
  get_payment_by_id id = wrapped "get payment by id" (Payments.get_payment_by_id env id)

  unfoldable pub get_payment_by_idempotency_key : String → String → Action Payment
  get_payment_by_idempotency_key client_id key =
      wrapped "get payment by idempotency key"
        (Payments.get_payment_by_idempotency_key env client_id key)

  unfoldable pub update_payment_status : String → PaymentStatus → Action Payment
  update_payment_status id status =
      wrapped "update payment status" (Payments.update_payment_status env id status)

  unfoldable pub complete_payment : String → Option String → Option String → Action Payment
  complete_payment id receipt tx_id =
      wrapped "complete payment" (Payments.complete_payment env id receipt tx_id)

  unfoldable pub fail_payment : String → Action Payment
  fail_payment id = wrapped "fail payment" (Payments.fail_payment env id)

  unfoldable pub update_provider_request_id :
      String → Option String → Option String → Action Payment
  update_provider_request_id id request_id tx_id =
      wrapped "update provider request id"
        (Payments.update_provider_request_id env id request_id tx_id)

  unfoldable pub list_payments_by_client : String → ℤ → ℤ → Action (List Payment)
  list_payments_by_client client_id limit offset =
      wrapped "list payments by client"
        (Payments.list_payments_by_client env client_id limit offset)

  unfoldable pub list_pending_payments_older_than : ℕ → Action (List Payment)
  list_pending_payments_older_than cutoff =
      wrapped "list pending payments older than"
        (Payments.list_pending_payments_older_than env cutoff)

  unfoldable pub create_payment_event : CreatePaymentEventParams → Action PaymentEvent
  create_payment_event e = wrapped "create payment event" (Payments.create_payment_event env e)
