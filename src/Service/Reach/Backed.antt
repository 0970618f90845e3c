-- ===== src/Service/Reach/Backed.antt =====
-- What is handed to the providers, and the rows of the table payments (internal/service/payment_service.go
-- and internal/service/paystack_service.go).
use mkwanja_payment_service.Prelude.{◌+◌, true, false, ◌≡◌, refl, ◌∷◌, All, ◌⊎◌, inl, inr, arith}
use mkwanja_payment_service.Prelude.Result.{succeeds}
use mkwanja_payment_service.Db.Models.{Payment}
use mkwanja_payment_service.Db.World.{World, Env}
use mkwanja_payment_service.Db.Action.{Action, wrapped, statement}
use mkwanja_payment_service.Db.Keeps.{Keeps, Keeps-then}
use mkwanja_payment_service.Db.Payments
use mkwanja_payment_service.Db.Payments.{
  CreatePaymentParams, has_id, insert_payment, update_payment, new_payment, set_where,
}
use mkwanja_payment_service.Repository.PaymentRepo
use mkwanja_payment_service.Service.Initiate.Shape.{row_then}
use mkwanja_payment_service.Service.Initiate.Asks.{Asks, stk-Asks, b2c-Asks, b2b-Asks, charge-Asks}
use mkwanja_payment_service.Service.Initiate.StkPush.{stk_payment, send_stk_push}
use mkwanja_payment_service.Service.Initiate.B2c.{b2c_payment, send_b2c}
use mkwanja_payment_service.Service.Initiate.B2b.{b2b_payment, send_b2b}
use mkwanja_payment_service.Service.Paystack.Charge.{charge_payment, send_charge}
use mkwanja_payment_service.Service.Requests.{PaymentService}
use mkwanja_payment_service.Service.Steps.{
  send_stk_push-Keeps, send_b2c-Keeps, send_b2b-Keeps, send_charge-Keeps,
}
use mkwanja_payment_service.Service.Initiations.{Initiation, after, RowKeeps, after-Keeps}
use mkwanja_payment_service.Service.Reach.{Reach, Reach-holds}
use mkwanja_payment_service.Service.Ledger.Payments.{Table}
use mkwanja_payment_service.Service.Preserved.Backs.{
  is_query, is_backed, All-change, Backs, Backs-IsPreserved,
}

-- Every request on record to pay is backed by a row.
abbrev pub IsBacked : World → Type 0
IsBacked w = All (λ r. is_backed w.payments r ≡ true) w.sent

module _ (env : Env) (p : CreatePaymentParams) where
  -- The row is refused, or it is the first of the table.
  create_payment-outcome :
      (w : World)
      → let (r, w') = wrapped "create payment" (PaymentRepo.create_payment env p) w in
        (w'.sent ≡ w.sent)
        × (((succeeds r ≡ false) × (w'.payments ≡ w.payments))
            ⊎ (w'.payments ≡ new_payment env p (record w { tick = w.tick + 1 }) ∷ w.payments))
  unfolding PaymentRepo.create_payment Payments.create_payment wrapped statement insert_payment
  create_payment-outcome w = ground arith

  create_payment-Backs :
      (w : World)
      → IsBacked w
      → let (r, w') = wrapped "create payment" (PaymentRepo.create_payment env p) w in
        ((succeeds r ≡ false) × IsBacked w') ⊎ Table (Backs (Asks p)) w'
  create_payment-Backs w h = elim ((create_payment-outcome w).1) [
    | inl (refused, rows) ↦ inl (refused, rw ((create_payment-outcome w).0, rows) h)
    | inr rows ↦
        let row : Payment = new_payment env p (record w { tick = w.tick + 1 }) in
        inr (
          rw ((create_payment-outcome w).0, rows)
            (
              All-change w.payments (row ∷ w.payments) w.sent (λ r backed. ground (arith, backed))
                  h,
              λ r a. ground (arith, a),
            ))
  ]

  row-IsBacked :
      {A : Type 0} (send : Payment → Action A)
      → ((q : Payment) → Keeps (Table (Backs (Asks p))) (send q))
      → Keeps IsBacked (row_then env p send)
  row-IsBacked send k =
      Keeps-then (λ w (h, all). h) (wrapped "create payment" (PaymentRepo.create_payment env p))
        send create_payment-Backs k

-- Every initiation asks for what its row says.
initiates-IsBacked :
    (env : Env) (s : PaymentService) (a : Initiation) (w : World)
    → IsBacked w
    → IsBacked (after env s a w)
initiates-IsBacked env s a = after-Keeps env s a (record { at = λ w' n h. h }) (rows a)
  where
    rows : (a : Initiation) → RowKeeps IsBacked env s a
    rows (Initiation.stk req) = λ valid phone normal.
        row-IsBacked env (stk_payment req phone) (send_stk_push env s req phone) (λ p.
          send_stk_push-Keeps (Backs-IsPreserved _) env s req phone p (stk-Asks s req phone valid))
    rows (Initiation.b2c req) = λ valid phone normal.
        row-IsBacked env (b2c_payment req phone) (send_b2c env s req phone)
          (λ p. send_b2c-Keeps (Backs-IsPreserved _) env s req phone p (b2c-Asks s req phone valid))
    rows (Initiation.b2b req) = λ valid.
        row-IsBacked env (b2b_payment req) (send_b2b env s req)
          (λ p. send_b2b-Keeps (Backs-IsPreserved _) env s req p (b2b-Asks s req valid))
    rows (Initiation.charge service req) = λ valid.
        row-IsBacked env (charge_payment req) (send_charge env service req)
          (λ p. send_charge-Keeps (Backs-IsPreserved _) env service req p (charge-Asks req p.id))

-- Whatever calls, callbacks and cycles there are, in whatever order and whichever statements fail: if every
-- request to pay on record is backed by a row of payments of the same kind, amount and recipient (the text
-- of shillings read as a number), then so is every one after them.
pub Reach-IsBacked : {w v : World} → IsBacked w → Reach w v → IsBacked v
Reach-IsBacked {w} h r =
    (Reach-holds (Backs-IsPreserved (λ q. is_query q ≡ true)) (λ q. refl) starts r
      (h, λ q query. rw query refl)).0
  where
    starts :
        (env : Env) (s : PaymentService) (a : Initiation) (u : World)
        → Table (Backs (λ q. is_query q ≡ true)) u
        → Table (Backs (λ q. is_query q ≡ true)) (after env s a u)
    starts env s a u (backed, queries) =
        (initiates-IsBacked env s a u backed, λ q query. rw query refl)
