-- ===== src/Service/Paystack/Webhook.antt =====
-- internal/service/paystack_service.go: `HandleWebhook`.
use mkwanja_payment_service.Prelude.{⊤, ℕ, String, List, not, str_eq, is_empty, ◌<>◌, if◌then◌else◌}
use mkwanja_payment_service.Prelude.Int.{eq_ℤ}
use mkwanja_payment_service.Prelude.Decimal.{decimal_int}
use mkwanja_payment_service.Prelude.Result.{wrap_err, msg}
use mkwanja_payment_service.Crypto.{decrypt}
use mkwanja_payment_service.Paystack.Messages.{WebhookEvent, verify_webhook_signature}
use mkwanja_payment_service.Db.Models.{Payment}
use mkwanja_payment_service.Db.World.{Env}
use mkwanja_payment_service.Db.Action.{Action, pure, raise, lift, wrapped, ◌>>=◌}
use mkwanja_payment_service.Repository.PaymentRepo
use mkwanja_payment_service.Repository.ClientRepo
use mkwanja_payment_service.Service.Paystack.{PaystackService}
use mkwanja_payment_service.Service.Settle

module _ (env : Env) (s : PaystackService) where
  -- switch event.Event
  unfoldable pub settle_event : WebhookEvent → Payment → Action ⊤
  settle_event event payment =
      if str_eq event.event "charge.success"
      then (if not (eq_ℤ event.amount payment.amount_cents)
          then raise (
              msg (
                "amount mismatch for payment "
                <> payment.id
                <> ": webhook "
                <> decimal_int event.amount
                <> ", recorded "
                <> decimal_int payment.amount_cents))
          else wrapped ("complete payment " <> payment.id)
              (Settle.complete_payment env payment.id event.reference (decimal_int event.id)))
      else if str_eq event.event "charge.failed"
      then wrapped ("fail payment " <> payment.id) (Settle.fail_payment env payment.id event.status)
      else pure tt

  module _ (raw_body : List ℕ) (signature : String) where
    unfoldable pub verified : WebhookEvent → Payment → String → Action ⊤
    unfolding settle_event
    verified event payment secret_key =
        if not (verify_webhook_signature s.signing secret_key raw_body signature)
        then raise (msg ("invalid webhook signature for payment " <> payment.id))
        else settle_event event payment

    unfoldable pub follow_event : WebhookEvent → Action ⊤
    unfolding verified
    follow_event event = do
      payment ←
          wrapped ("lookup payment " <> event.reference)
            (PaymentRepo.get_payment_by_id env event.reference)
      creds ←
          wrapped "get paystack credentials"
            (ClientRepo.get_active_paystack_credentials env payment.client_id)
      secret_key ← lift (
          wrap_err "decrypt secret key"
            (decrypt env.crypto s.encrypt_key creds.secret_key_encrypted))
      verified event payment secret_key

    unfoldable pub handle_webhook : Action ⊤
    unfolding follow_event
    handle_webhook = do
      event ← lift (wrap_err "parse webhook" (s.parse raw_body))
      (if is_empty event.reference
          then raise (msg "webhook event has no reference")
          else follow_event event)
