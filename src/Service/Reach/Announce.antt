-- ===== src/Service/Reach/Announce.antt =====
-- An initiation of internal/service/payment_service.go puts its idempotency key in the table before it
-- sends a request: the lemmas for Once.
use mkwanja_payment_service.Prelude.{
  ⊤, String, ◌≡◌, refl, true, false, List, any, ◌⊎◌, inl, inr, arith, eq_iff,
}
use mkwanja_payment_service.Prelude.Result.{succeeds}
use mkwanja_payment_service.Db.Models.{ClientCredential, Payment, JournalAccount}
use mkwanja_payment_service.Daraja.Messages.{Sent}
use mkwanja_payment_service.Db.World.{World, Env}
use mkwanja_payment_service.Db.Action.{Action, ◌>>=◌, wrapped}
use mkwanja_payment_service.Db.Keeps.{Keeps, Keeps-then}
use mkwanja_payment_service.Db.Payments
use mkwanja_payment_service.Db.Payments.{
  CreatePaymentParams, has_id, has_key, insert_payment, update_payment, set_where,
}
use mkwanja_payment_service.Db.Payments.Table.{IsUpdate, any-key-set_where}
use mkwanja_payment_service.Repository.PaymentRepo
use mkwanja_payment_service.Service.Requests.{PaymentService}
use mkwanja_payment_service.Service.Preserved.{IsPreserved}
use mkwanja_payment_service.Service.Ledger.Payments.{
  Table, Table-IsTimeless, write_inbound_entries-Keeps, write_outbound_entries-Keeps,
}
use mkwanja_payment_service.Service.Initiate.Replay.{is_known}
use mkwanja_payment_service.Service.Steps.{
  send_stk_push-Keeps, send_b2c-Keeps, send_b2b-Keeps, send_charge-Keeps,
}
use mkwanja_payment_service.Service.Initiate.StkPush.{stk_payment, send_stk_push}
use mkwanja_payment_service.Service.Initiate.B2c.{b2c_payment, send_b2c}
use mkwanja_payment_service.Service.Initiate.B2b.{b2b_payment, send_b2b}
use mkwanja_payment_service.Service.Paystack.Charge.{charge_payment, send_charge}
use mkwanja_payment_service.Service.Initiations.{
  Initiation, client_of, key_of, after, RowKeeps, after-Keeps,
}
use mkwanja_payment_service.Service.Preserved.Tables.{create_payment_event-Table}

module _ (client_id key : String) where
  abbrev pub HasKey :
      List Payment → List JournalAccount → List ClientCredential → List Sent → Type 0
  HasKey ps accounts keys sent = any (has_key client_id key) ps ≡ true

  insert_payment-HasKey :
      (env : Env) (p : CreatePaymentParams) → Keeps (Table HasKey) (insert_payment env p)
  unfolding insert_payment
  insert_payment-HasKey env p = record { at = λ w h. ground arith }

  update_payment-HasKey :
      (id : String) (change : Payment → Payment)
      → IsUpdate change
      → Keeps (Table HasKey) (update_payment id change)
  unfolding update_payment
  update_payment-HasKey id change u = record {
    at = λ w h. ground (arith, any-key-set_where change u client_id key id w.payments);
  }

  pub is_known-IsPreserved : IsPreserved (λ w. is_known client_id key w ≡ true) (λ r. ⊤)
  is_known-IsPreserved = record {
    timeless = Table-IsTimeless HasKey;
    create = insert_payment-HasKey;
    update = update_payment-HasKey;
    event = create_payment_event-Table HasKey;
    inbound = write_inbound_entries-Keeps HasKey;
    outbound = write_outbound_entries-Keeps HasKey;
    route = λ w key value h. h;
    request = λ w r allowed h. h;
    clients = λ w rows h. h;
    accounts = λ w rows h. h;
    credentials = λ w rows h. h;
    paystack_credentials = λ w rows h. h;
  }

-- Nothing is sent yet, or the key is in the table.
abbrev pub IsAnnounced : String → String → World → World → Type 0
IsAnnounced client_id key w w' = (w'.sent ≡ w.sent) ⊎ (is_known client_id key w' ≡ true)

module _ (env : Env) (w : World) (p : CreatePaymentParams) where
  create_payment-announces :
      (w' : World)
      → IsAnnounced p.client_id p.idempotency_key w w'
      → let (r, w'') = wrapped "create payment" (PaymentRepo.create_payment env p) w' in
        ((succeeds r ≡ false) × IsAnnounced p.client_id p.idempotency_key w w'')
        ⊎ (is_known p.client_id p.idempotency_key w'' ≡ true)
  unfolding PaymentRepo.create_payment Payments.create_payment wrapped
  create_payment-announces w' h = ground (
    arith,
    (eq_iff p.client_id p.client_id).1 refl,
    (eq_iff p.idempotency_key p.idempotency_key).1 refl,
  )

  module _ {A : Type 0} (send : Payment → Action A) where
    row-IsAnnounced :
        ((q : Payment) → Keeps (λ w'. is_known p.client_id p.idempotency_key w' ≡ true) (send q))
        → Keeps
            (IsAnnounced p.client_id p.idempotency_key w)
            (wrapped "create payment" (PaymentRepo.create_payment env p) >>= send)
    row-IsAnnounced k =
        Keeps-then (λ w' h. inr h) (wrapped "create payment" (PaymentRepo.create_payment env p))
          send create_payment-announces k

-- No request goes out before the key is in the table.
pub announces :
    (env : Env) (s : PaymentService) (a : Initiation) (w : World)
    → IsAnnounced (client_of a) (key_of a) w (after env s a w)
announces env s a w = after-Keeps env s a (record { at = λ w' n h. h }) (rows a) w (inl refl)
  where
    rows : (a : Initiation) → RowKeeps (IsAnnounced (client_of a) (key_of a) w) env s a
    rows (Initiation.stk req) = λ valid phone normal.
        row-IsAnnounced env w (stk_payment req phone) (send_stk_push env s req phone)
          (λ p. send_stk_push-Keeps (is_known-IsPreserved _ _) env s req phone p (λ creds. tt))
    rows (Initiation.b2c req) = λ valid phone normal.
        row-IsAnnounced env w (b2c_payment req phone) (send_b2c env s req phone)
          (λ p. send_b2c-Keeps (is_known-IsPreserved _ _) env s req phone p (λ creds security. tt))
    rows (Initiation.b2b req) = λ valid.
        row-IsAnnounced env w (b2b_payment req) (send_b2b env s req)
          (λ p. send_b2b-Keeps (is_known-IsPreserved _ _) env s req p (λ creds security. tt))
    rows (Initiation.charge service req) = λ valid.
        row-IsAnnounced env w (charge_payment req) (send_charge env service req)
          (λ p. send_charge-Keeps (is_known-IsPreserved _ _) env service req p tt)
