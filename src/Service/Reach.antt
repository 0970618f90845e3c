-- ===== src/Service/Reach.antt =====
-- The service over time: calls of internal/service/payment_service.go, paystack_service.go and
-- client_service.go, callbacks that internal/queue/worker.go takes, and cycles of
-- internal/service/reconciliation_service.go in any order, each in an environment of its own, and what
-- holds after every one of them.
pub mod Announce
pub mod Once
pub mod Backed
use mkwanja_payment_service.Prelude.{⊤, ℕ, String, ◌≡◌, refl, inl, inr, List, ◌∷◌, arith}
use mkwanja_payment_service.Prelude.Int.{pos}
use mkwanja_payment_service.Db.Models.{Payment, JournalAccount, inbound, outbound}
use mkwanja_payment_service.Db.World.{World, Env}
use mkwanja_payment_service.Db.Keeps.{Keeps, IsTimeless}
use mkwanja_payment_service.Db.Payments.{
  CreatePaymentParams, CreatePaymentEventParams, insert_payment, update_payment,
  create_payment_event,
}
use mkwanja_payment_service.Db.Payments.Table.{
  IsTable, HasTable, IsUpdate, insert_payment-HasTable, update_payment-HasTable,
}
use mkwanja_payment_service.Db.Journal.{balances_of}
use mkwanja_payment_service.Db.Journal.Balance.{IsBalanced, sum_column, net-zero}
use mkwanja_payment_service.Service.Preserved.{IsPreserved}
use mkwanja_payment_service.Service.Requests.{PaymentService}
use mkwanja_payment_service.Service.Initiations.{Initiation, after}
use mkwanja_payment_service.Service.Settle.{complete_payment, fail_payment}
use mkwanja_payment_service.Service.Steps.{complete-Keeps, fail-Keeps, IsPreserved-after}
use mkwanja_payment_service.Service.Preserved.Accounts.{
  register_client-Keeps, update_credentials-Keeps, ensure_operator_client-Keeps,
  deactivate_client-Keeps, register_credentials-Keeps,
}
use mkwanja_payment_service.Service.Clients.{
  RegisterClientRequest, UpdateCredentialsRequest, register_client, update_credentials,
  ensure_operator_client, deactivate_client,
}
use mkwanja_payment_service.Service.Paystack.{
  PaystackService, RegisterPaystackCredentialsRequest, register_credentials,
}
use mkwanja_payment_service.Service.Paystack.Webhook.{handle_webhook}
use mkwanja_payment_service.Service.Paystack.Genuine.{handle_webhook-Keeps}
use mkwanja_payment_service.Daraja.Messages.{Sent, TransactionStatusRequest}
use mkwanja_payment_service.Prelude.Result.{Result}
use mkwanja_payment_service.Queue.Worker.{Json, Tenant, handle_stk_webhook}
use mkwanja_payment_service.Queue.Settles.{handle_stk_webhook-Keeps}
use mkwanja_payment_service.Service.Reconcile.{ReconciliationService, reconcile_consumer}
use mkwanja_payment_service.Service.Reconcile.Cycle.{reconcile_consumer-Keeps}
use mkwanja_payment_service.Service.Ledger.{write_inbound_entries, write_outbound_entries}
use mkwanja_payment_service.Service.Ledger.Payments.{
  Table, Table-IsTimeless, write_inbound_entries-Keeps, write_outbound_entries-Keeps,
}
use mkwanja_payment_service.Service.Ledger.Entries.{
  write_inbound_entries-IsBooked, write_outbound_entries-IsBooked, IsBooked-IsBalanced,
}
use mkwanja_payment_service.Service.Preserved.Tables.{HasTable-IsPreserved, HasBalance-IsPreserved}

-- One call of an operation that writes, one callback, or one reconciliation cycle.
pub data Step (env : Env) (s : PaymentService) (w : World) : World → Type 0 where
  initiate : (a : Initiation) → Step env s w (after env s a w)
  complete : (id receipt tx : String) → Step env s w (complete_payment env id receipt tx w).1
  fail : (id reason : String) → Step env s w (fail_payment env id reason w).1
  webhook :
      (registry : String → Result Tenant) (json : Json) (task : String)
      → Step env s w (handle_stk_webhook env registry json task w).1
  reconcile :
      (r : ReconciliationService) (consumer_id : String)
      → Step env s w (reconcile_consumer env r consumer_id w).1
  paystack_webhook :
      (p : PaystackService) (raw_body : List ℕ) (signature : String)
      → Step env s w (handle_webhook env p raw_body signature w).1
  register :
      (key : List ℕ) (req : RegisterClientRequest) → Step env s w (register_client env key req w).1
  update :
      (key : List ℕ) (req : UpdateCredentialsRequest)
      → Step env s w (update_credentials env key req w).1
  ensure :
      (key : List ℕ) (external_id name : String)
      → Step env s w (ensure_operator_client env key external_id name w).1
  deactivate : (id : String) → Step env s w (deactivate_client env id w).1
  register_keys :
      (p : PaystackService) (req : RegisterPaystackCredentialsRequest)
      → Step env s w (register_credentials env p req w).1

pub data Reach (w : World) : World → Type 0 where
  here : Reach w w
  next : {u v : World} (env : Env) (s : PaymentService) → Reach w u → Step env s u v → Reach w v

module _ {P : World → Type 0} {Allowed : Sent → Type 0} (inv : IsPreserved P Allowed)
    (status : (r : TransactionStatusRequest) → Allowed (Sent.status r))
    (initiates : (env : Env) (s : PaymentService) (a : Initiation) (w : World)
      → P w
      → P (after env s a w)) where
  Step-Keeps : {env : Env} {s : PaymentService} {w v : World} → Step env s w v → P w → P v
  Step-Keeps {env} {s} {w} (Step.initiate a) h = initiates env s a w h
  Step-Keeps {env} {s} {w} (Step.complete id receipt tx) h =
      (complete-Keeps inv env id receipt tx).at w h
  Step-Keeps {env} {s} {w} (Step.fail id reason) h = (fail-Keeps inv env id reason).at w h
  Step-Keeps {env} {s} {w} (Step.webhook registry json task) h =
      (handle_stk_webhook-Keeps inv env registry json task).at w h
  Step-Keeps {env} {s} {w} (Step.reconcile r consumer_id) h =
      (reconcile_consumer-Keeps inv status env r consumer_id).at w h
  Step-Keeps {env} {s} {w} (Step.paystack_webhook p raw_body signature) h =
      (handle_webhook-Keeps inv env p raw_body signature).at w h
  Step-Keeps {env} {s} {w} (Step.register key req) h =
      (register_client-Keeps inv env key req).at w h
  Step-Keeps {env} {s} {w} (Step.update key req) h =
      (update_credentials-Keeps inv env key req).at w h
  Step-Keeps {env} {s} {w} (Step.ensure key external_id name) h =
      (ensure_operator_client-Keeps inv env key external_id name).at w h
  Step-Keeps {env} {s} {w} (Step.deactivate id) h = (deactivate_client-Keeps inv env id).at w h
  Step-Keeps {env} {s} {w} (Step.register_keys p req) h =
      (register_credentials-Keeps inv env p req).at w h

  -- An invariant holds in every world that the service reaches, if it allows what the reconciliation asks
  -- and every initiation keeps it.
  pub Reach-holds : {w v : World} → Reach w v → P w → P v
  Reach-holds here h = h
  Reach-holds (next env s r st) h = Step-Keeps st (Reach-holds r h)

-- An invariant that allows every request holds in every world that the service reaches.
pub Reach-Keeps :
    {P : World → Type 0} → IsPreserved P (λ r. ⊤) → {w v : World} → Reach w v → P w → P v
Reach-Keeps inv r h = Reach-holds inv (λ q. tt) (IsPreserved-after inv) r h

-- Whatever calls, callbacks and cycles there are, in whatever order and whichever statements fail: every
-- row of payments keeps a positive amount, an id of its own, and an idempotency key of its own within its client.
pub Reach-IsTable : {w v : World} → IsTable w.payments → Reach w v → IsTable v.payments
Reach-IsTable h r = Reach-Keeps HasTable-IsPreserved r h

-- Whatever calls, callbacks and cycles there are, in whatever order and whichever statements fail: if the
-- journal balances at first, then debits equal credits for every set of clients and payments.
pub Reach-IsBalanced : {w v : World} → IsBalanced w.journal → Reach w v → IsBalanced v.journal
Reach-IsBalanced h r = Reach-Keeps HasBalance-IsPreserved r h

-- In every world that the service reaches from a balanced journal, the net column of the view
-- account_balances adds up to zero over the accounts of each client.
pub Reach-trial_balance :
    {w v : World} (client_id : String)
    → IsBalanced w.journal
    → Reach w v
    → sum_column (λ b. b.net_cents) (balances_of client_id v.journal) ≡ pos 0
Reach-trial_balance {w} {v} client_id h r = net-zero client_id v.journal (Reach-IsBalanced h r)
