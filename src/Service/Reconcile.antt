-- ===== src/Service/Reconcile.antt =====
-- internal/service/reconciliation_service.go: `RunOnce`, `reconcileConsumer` and `reconcilePayment`.
-- Logging is left out.
pub mod Cycle
pub mod Settles
use mkwanja_payment_service.Prelude.{
  ⊤, ℕ, ◌-◌, String, Bool, List, [], ◌∷◌, Option, none, some, ◌<>◌, ◌||◌, str_eq, is_empty,
  if◌then◌else◌,
}
use mkwanja_payment_service.Prelude.Result.{Result, wrap_err}
use mkwanja_payment_service.Crypto.{decrypt}
use mkwanja_payment_service.Daraja.Messages.{
  DarajaClient, TransactionStatusRequest, TransactionStatusResponse, Sent,
}
use mkwanja_payment_service.Db.Models.{Payment, ClientCredential}
use mkwanja_payment_service.Db.World.{World, Env}
use mkwanja_payment_service.Db.Action.{Action, pure, lift, attempt, wrapped, ◌>>=◌, ◌>>◌}
use mkwanja_payment_service.Repository.PaymentRepo
use mkwanja_payment_service.Repository.ClientRepo
use mkwanja_payment_service.Service.Settle
use mkwanja_payment_service.Service.Initiate.Common.{call}
use mkwanja_payment_service.Service.Initiate.B2c.{initiator_of}

-- The fields of `ReconciliationService` that a cycle of one consumer reads.
pub record ReconciliationService : Type 0 where
  pub encrypt_key : List ℕ
  pub callback_url : String
  pub build_client : String → String → String → String → DarajaClient

-- 2 * time.Minute, in nanoseconds
abbrev pub two_minutes : ℕ
two_minutes = 120000000000

-- txID := ""; if payment.ProviderRequestID.Valid { ... }
abbrev pub request_id_of : Option String → String
request_id_of none = ""
request_id_of (some id) = id

abbrev pub status_request :
    ReconciliationService → String → Payment → ClientCredential → String → TransactionStatusRequest
status_request s consumer_id payment creds security = record {
  initiator = initiator_of creds.initiator_name;
  security_credential = security;
  command_id = "TransactionStatusQuery";
  transaction_id = request_id_of payment.provider_request_id;
  party_a = creds.shortcode;
  identifier_type = "1";
  result_url = s.callback_url <> "/webhooks/mpesa/reconciliation/" <> consumer_id;
  queue_time_out_url = s.callback_url <> "/webhooks/mpesa/reconciliation/" <> consumer_id;
  remarks = "Reconciliation";
  occasion = "reconciliation";
}

-- txStatus.ResultCode == "0" || txStatus.TransactionStatus == "completed"
abbrev pub is_paid : TransactionStatusResponse → Bool
is_paid answer = str_eq answer.result_code "0" || str_eq answer.transaction_status "completed"

module _ (env : Env) (s : ReconciliationService) where
  unfoldable pub open_credential : String → String → Payment → Action String
  open_credential what sealed payment = lift (
      wrap_err ("decrypt " <> what <> " for payment " <> payment.id)
        (decrypt env.crypto s.encrypt_key sealed))

  unfoldable pub open_security : Option String → Payment → Action String
  unfolding open_credential
  open_security none payment = pure ""
  open_security (some sealed) payment =
      if is_empty sealed then pure "" else open_credential "security credential" sealed payment

  unfoldable pub resolve : Payment → TransactionStatusResponse → Action ⊤
  resolve payment answer =
      if is_paid answer
      then wrapped ("complete payment " <> payment.id)
          (Settle.complete_payment env payment.id answer.receipt_no answer.conversation_id)
      else wrapped ("fail payment " <> payment.id) (
          Settle.fail_payment env payment.id
            ("reconciliation: daraja returned result code " <> answer.result_code))

  module _ (consumer_id : String) where
    unfoldable pub reconcile_payment : Payment → Action ⊤
    unfolding open_credential open_security resolve
    reconcile_payment payment = do
      creds ←
          wrapped ("get credentials for payment " <> payment.id)
            (ClientRepo.get_active_credentials env payment.client_id)
      key ← open_credential "consumer key" creds.consumer_key_encrypted payment
      secret ← open_credential "consumer secret" creds.consumer_secret_encrypted payment
      passkey ← open_credential "passkey" creds.passkey_encrypted payment
      security ← open_security creds.security_credential_encrypted payment
      answer ← wrapped ("query transaction status for payment " <> payment.id) (
          call
            (λ n.
              (s.build_client key secret creds.shortcode passkey).query_transaction_status n
                (status_request s consumer_id payment creds security))
            (Sent.status (status_request s consumer_id payment creds security)))
      resolve payment answer

    -- The loop: an error is logged, and the next payment is taken.
    unfoldable pub reconcile_all : List Payment → Action ⊤
    unfolding reconcile_payment ◌>>=◌
    reconcile_all [] = pure tt
    reconcile_all (payment ∷ payments) = do
      attempt (reconcile_payment payment)
      reconcile_all payments

    unfoldable pub reconcile_consumer : Action ⊤
    unfolding reconcile_all
    reconcile_consumer w =
        (wrapped ("list pending payments for " <> consumer_id)
              (PaymentRepo.list_pending_payments_older_than env (env.now w.tick - two_minutes))
            >>= reconcile_all)
          w

-- `RunOnce`: the cycle of each consumer on its own database; the error of one is logged. The consumers are
-- those of the registry, so a database is found for each.
unfoldable pub run_once :
    (String → Env) → ReconciliationService → List (String × World) → List (String × World)
unfolding reconcile_consumer
run_once envs s [] = []
run_once envs s (consumer ∷ consumers) =
    (consumer.0, (reconcile_consumer (envs consumer.0) s consumer.0 consumer.1).1)
    ∷ run_once envs s consumers
