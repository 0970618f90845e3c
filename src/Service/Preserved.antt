-- ===== src/Service/Preserved.antt =====
-- Invariants of the whole program: what an invariant must survive so that every operation keeps it.
-- Each field is about one statement, or about what one call of a service does outside the tables.
-- `Allowed` tells which requests may be handed to a provider.
pub mod Accounts
pub mod Tables
pub mod Backs
use mkwanja_payment_service.Prelude.{ℕ, String, List, ◌∷◌, Option}
use mkwanja_payment_service.Prelude.Result.{Result}
use mkwanja_payment_service.Daraja.Messages.{Sent}
use mkwanja_payment_service.Db.Models.{
  Payment, Client, JournalAccount, ClientCredential, ClientPaystackCredential,
}
use mkwanja_payment_service.Db.World.{World, Env}
use mkwanja_payment_service.Db.Action.{statement}
use mkwanja_payment_service.Db.Keeps.{Keeps, IsTimeless, Keeps-statement, Keeps-query}
use mkwanja_payment_service.Db.Payments.{
  CreatePaymentParams, CreatePaymentEventParams, insert_payment, update_payment, create_payment,
  complete_payment, fail_payment, update_provider_request_id, create_payment_event,
  get_payment_by_id, get_payment_by_idempotency_key,
}
use mkwanja_payment_service.Db.Payments.Table.{
  IsUpdate, as_completed-IsUpdate, as_failed-IsUpdate, with_request_id-IsUpdate,
}
use mkwanja_payment_service.Db.Clients.{get_active_credentials, get_active_paystack_credentials}
use mkwanja_payment_service.Service.Ledger.{write_inbound_entries, write_outbound_entries}
use mkwanja_payment_service.Service.Initiate.Common.{call}

pub record IsPreserved (P : World → Type 0) (Allowed : Sent → Type 0) : Type 0 where
  pub timeless : IsTimeless P
  pub create : (env : Env) (p : CreatePaymentParams) → Keeps P (insert_payment env p)
  pub update :
      (id : String) (change : Payment → Payment)
      → IsUpdate change
      → Keeps P (update_payment id change)
  pub event : (env : Env) (e : CreatePaymentEventParams) → Keeps P (create_payment_event env e)
  pub inbound : (env : Env) (p : Payment) → Keeps P (write_inbound_entries env p)
  pub outbound : (env : Env) (p : Payment) → Keeps P (write_outbound_entries env p)
  pub route :
      (w : World) (key value : String) → P w → P (record w { routes = (key, value) ∷ w.routes })
  pub request : (w : World) (r : Sent) → Allowed r → P w → P (record w { sent = r ∷ w.sent })
  pub clients : (w : World) (rows : List Client) → P w → P (record w { clients = rows })
  pub accounts : (w : World) (rows : List JournalAccount) → P w → P (record w { accounts = rows })
  pub credentials :
      (w : World) (rows : List ClientCredential) → P w → P (record w { credentials = rows })
  pub paystack_credentials :
      (w : World) (rows : List ClientPaystackCredential)
      → P w
      → P (record w { paystack_credentials = rows })

module _ {P : World → Type 0} {Allowed : Sent → Type 0} (inv : IsPreserved P Allowed)
    (env : Env) where
  pub create_payment-Keeps : (p : CreatePaymentParams) → Keeps P (create_payment env p)
  unfolding create_payment
  create_payment-Keeps p = Keeps-statement env _ inv.timeless (inv.create env p)

  update-Keeps :
      (id : String) (change : World → Payment → Payment)
      → ((w : World) → IsUpdate (change w))
      → Keeps P (statement env (λ w. update_payment id (change w) w))
  update-Keeps id change u =
      Keeps-statement env _ inv.timeless
        (record { at = λ w h. (inv.update id (change w) (u w)).at w h })

  pub complete_payment-Keeps :
      (id : String) (receipt tx : Option String) → Keeps P (complete_payment env id receipt tx)
  unfolding complete_payment
  complete_payment-Keeps id receipt tx =
      update-Keeps id _ (λ w. as_completed-IsUpdate (env.now w.tick) receipt tx)

  pub fail_payment-Keeps : (id : String) → Keeps P (fail_payment env id)
  unfolding fail_payment
  fail_payment-Keeps id = update-Keeps id _ (λ w. as_failed-IsUpdate (env.now w.tick))

  pub update_provider_request_id-Keeps :
      (id : String) (request tx : Option String)
      → Keeps P (update_provider_request_id env id request tx)
  unfolding update_provider_request_id
  update_provider_request_id-Keeps id request tx =
      update-Keeps id _ (λ w. with_request_id-IsUpdate (env.now w.tick) request tx)

  pub get_payment_by_id-Keeps : (id : String) → Keeps P (get_payment_by_id env id)
  unfolding get_payment_by_id
  get_payment_by_id-Keeps id = Keeps-query env _ inv.timeless

  pub get_payment_by_idempotency_key-Keeps :
      (client_id key : String) → Keeps P (get_payment_by_idempotency_key env client_id key)
  unfolding get_payment_by_idempotency_key
  get_payment_by_idempotency_key-Keeps client_id key = Keeps-query env _ inv.timeless

  pub get_active_credentials-Keeps :
      (client_id : String) → Keeps P (get_active_credentials env client_id)
  unfolding get_active_credentials
  get_active_credentials-Keeps client_id = Keeps-query env _ inv.timeless

  pub get_active_paystack_credentials-Keeps :
      (client_id : String) → Keeps P (get_active_paystack_credentials env client_id)
  unfolding get_active_paystack_credentials
  get_active_paystack_credentials-Keeps client_id = Keeps-query env _ inv.timeless

  pub call-Keeps :
      {A : Type 0} (answer : ℕ → Result A) (r : Sent) → Allowed r → Keeps P (call answer r)
  unfolding call
  call-Keeps answer r allowed = record {
    at = λ w h. inv.timeless.at (record w { sent = r ∷ w.sent }) _ (inv.request w r allowed h);
  }
