-- ===== src/Service/Reconcile/Settles.antt =====
-- A reconciliation cycle leaves no payment that was due pending, when nothing fails
-- (internal/service/reconciliation_service.go): one payment.
pub mod Rows
pub mod Only
pub mod Due
use mkwanja_payment_service.Prelude.{
  ◌∷◌, ℕ, ◌+◌, ◌≡◌, refl, ap, ◌∙◌, String, Bool, true, false, some, find, Option, Bool-cases, inl,
  inr, arith,
}
use mkwanja_payment_service.Prelude.Result.{ok, succeeds}
use mkwanja_payment_service.Crypto.{decrypt}
use mkwanja_payment_service.Daraja.Messages.{TransactionStatusResponse, Sent}
use mkwanja_payment_service.Db.Models.{Payment, ClientCredential, null_string}
use mkwanja_payment_service.Db.World.{World, Env}
use mkwanja_payment_service.Db.Action.{◌>>=◌, query, wrapped, lift}
use mkwanja_payment_service.Db.Payments.{has_id, set_where, as_completed, as_failed, is_pending}
use mkwanja_payment_service.Db.Payments.Table.{IsUpdate, as_completed-IsUpdate, as_failed-IsUpdate}
use mkwanja_payment_service.Db.Clients
use mkwanja_payment_service.Db.Clients.{is_active_for}
use mkwanja_payment_service.Repository.ClientRepo
use mkwanja_payment_service.Service.Initiate.Common.{call}
use mkwanja_payment_service.Service.Settle.Outcome.{
  complete_payment-found, complete_payment-credentials, fail_payment-found,
  fail_payment-credentials,
}
use mkwanja_payment_service.Service.Reconcile.Settles.Rows.{IsEnded}
use mkwanja_payment_service.Service.Reconcile.{
  ReconciliationService, open_credential, open_security, status_request, is_paid, resolve,
  reconcile_payment,
}

-- What a payment needs for the provider to be asked about it, and that the provider answers.
pub record IsAnswered (env : Env) (s : ReconciliationService) (consumer_id : String) (w : World)
    (p : Payment) : Type 0 where
  pub creds : ClientCredential
  pub key : String
  pub secret : String
  pub passkey : String
  pub security : String
  pub answer : ℕ → TransactionStatusResponse
  pub active : find (is_active_for p.client_id) w.credentials ≡ some creds
  pub opens_key : decrypt env.crypto s.encrypt_key creds.consumer_key_encrypted ≡ ok key
  pub opens_secret : decrypt env.crypto s.encrypt_key creds.consumer_secret_encrypted ≡ ok secret
  pub opens_passkey : decrypt env.crypto s.encrypt_key creds.passkey_encrypted ≡ ok passkey
  pub opens_security :
      (u : World) → open_security env s creds.security_credential_encrypted p u ≡ (ok security, u)
  pub answers :
      (n : ℕ)
      → (s.build_client key secret creds.shortcode passkey).query_transaction_status n
          (status_request s consumer_id p creds security)
        ≡ ok (answer n)

-- The row of the payment is settled, and the other rows are as before.
pub record IsSettled (p : Payment) (u v : World) : Type 0 where
  pub change : Payment → Payment
  pub settles : (q : Payment) → IsEnded (change q).status
  pub update : IsUpdate change
  pub payments : v.payments ≡ set_where p.id change u.payments
  pub credentials : v.credentials ≡ u.credentials

module _ (env : Env) (s : ReconciliationService) (calm : (n : ℕ) → env.fails n ≡ false) where
  resolve-IsSettled :
      (p q : Payment) (answer : TransactionStatusResponse) (u : World)
      → find (has_id p.id) u.payments ≡ some q
      → IsSettled p u (resolve env s p answer u).1
  unfolding resolve wrapped
  resolve-IsSettled p q answer u found = elim (Bool-cases (is_paid answer)) [
    | inl paid ↦ rw paid (record {
      change =
          as_completed (env.now (u.tick + 1)) (null_string answer.receipt_no)
            (null_string answer.conversation_id);
      settles = λ x. inl refl;
      update = as_completed-IsUpdate _ _ _;
      payments =
          (complete_payment-found env u p.id answer.receipt_no answer.conversation_id q found
            (calm u.tick)).1;
      credentials =
          complete_payment-credentials env u p.id answer.receipt_no answer.conversation_id q found
            (calm u.tick);
    })
    | inr unpaid ↦ rw unpaid (record {
      change = as_failed (env.now (u.tick + 1));
      settles = λ x. inr refl;
      update = as_failed-IsUpdate _;
      payments = (fail_payment-found env u p.id _ q found (calm u.tick)).1;
      credentials = fail_payment-credentials env u p.id _;
    })
  ]

  module _ (consumer_id : String) where
    -- One payment whose row is in the table: it is settled.
    pub reconcile_payment-IsSettled :
        (p q : Payment) (u : World)
        → IsAnswered env s consumer_id u p
        → find (has_id p.id) u.payments ≡ some q
        → IsSettled p u (reconcile_payment env s consumer_id p u).1
    unfolding reconcile_payment ◌>>=◌ wrapped ClientRepo.get_active_credentials
        Clients.get_active_credentials query open_credential lift call
    reconcile_payment-IsSettled p q u a found =
        rw
          (
            calm u.tick,
            a.active,
            a.opens_key,
            a.opens_secret,
            a.opens_passkey,
            a.opens_security _,
            a.answers _,
          )
          (let settled =
              resolve-IsSettled p q (a.answer (u.tick + 1))
                (record u {
                  tick = u.tick + 1 + 1;
                  sent = Sent.status (status_request s consumer_id p a.creds a.security) ∷ u.sent;
                })
                found in
            record {
              change = settled.change;
              settles = settled.settles;
              update = settled.update;
              payments = settled.payments;
              credentials = settled.credentials;
            })
