-- ===== src/Service/Initiations/Errors.antt =====
-- What an initiation that returns an error leaves in the table payments (internal/service/payment_service.go
-- and internal/service/paystack_service.go).
use mkwanja_payment_service.Prelude.{
  ⊤, ℕ, ◌+◌, String, ◌≡◌, refl, sym, false, Bool, List, ◌∷◌, any, ◌⊎◌, inl, inr, arith,
}
use mkwanja_payment_service.Prelude.Result.{Result, ok, err, succeeds}
use mkwanja_payment_service.Db.Models.{Payment, PaymentStatus}
use mkwanja_payment_service.Db.World.{World, Env}
use mkwanja_payment_service.Db.Action.{
  Action, pure, lift, attempt, wrapped, statement, continue, ◌>>=◌,
}
use mkwanja_payment_service.Db.Keeps.{Keeps-lift, Keeps-attempt, Keeps-wrapped, Keeps-query}
use mkwanja_payment_service.Db.Payments
use mkwanja_payment_service.Db.Payments.{
  CreatePaymentParams, has_id, new_payment, insert_payment, as_failed,
}
use mkwanja_payment_service.Repository.PaymentRepo
use mkwanja_payment_service.Service.Requests.{
  PaymentService, InitiateStkPushRequest, InitiateB2cRequest, InitiateB2bRequest,
}
use mkwanja_payment_service.Service.Paystack.{PaystackService, InitiatePaystackChargeRequest}
use mkwanja_payment_service.Service.Initiate.StkPush.{
  stk_payment, stk_replay, start_stk_push, send_stk_push, initiate_stk_push,
}
use mkwanja_payment_service.Service.Initiate.B2c.{
  b2c_payment, b2c_replay, start_b2c, send_b2c, initiate_b2c,
}
use mkwanja_payment_service.Service.Initiate.B2b.{
  b2b_payment, b2b_replay, start_b2b, send_b2b, initiate_b2b,
}
use mkwanja_payment_service.Service.Paystack.Charge.{
  charge_payment, charge_replay, start_charge, send_charge, initiate_charge,
}
use mkwanja_payment_service.Service.Initiate.Shape.{row_then}
use mkwanja_payment_service.Service.Initiate.Failed.{IsEnd, Ends, Ends-bind, Ends-Keeps}
use mkwanja_payment_service.Service.Initiate.Failed.Kinds.{
  EndsWell, send_stk_push-Ends, send_b2c-Ends, send_b2b-Ends, send_charge-Ends,
}
use mkwanja_payment_service.Service.Initiations.{Initiation, after}

-- The rows are as before, or there is a new one, and it is marked as failed.
abbrev pub IsClean : List Payment → World → Type 0
IsClean old w =
    (w.payments ≡ old)
    ⊎ ((row : Payment) × (t : ℕ) × (w.payments ≡ as_failed t row ∷ old)
        × ((as_failed t row).status ≡ PaymentStatus.failed))

-- Whether the call returns no error.
abbrev pub returns : Env → PaymentService → Initiation → World → Bool
returns env s (Initiation.stk req) w = succeeds (initiate_stk_push env s req w).0
returns env s (Initiation.b2c req) w = succeeds (initiate_b2c env s req w).0
returns env s (Initiation.b2b req) w = succeeds (initiate_b2b env s req w).0
returns env s (Initiation.charge p req) w = succeeds (initiate_charge env p req w).0

IsEnd-err :
    {A : Type 0} (Good Bad : World → Type 0) (r : Result A) (w : World)
    → IsEnd Good Bad r w
    → succeeds r ≡ false
    → Bad w
IsEnd-err Good Bad (ok a) w h raised = ground (arith, raised)
IsEnd-err Good Bad (err e) w h raised = h

module _ (env : Env) (calm : (n : ℕ) → env.fails n ≡ false) (old : List Payment) where
  abbrev Same : World → Type 0
  Same w = w.payments ≡ old

  abbrev Clean : {A : Type 0} → Action A → Type 0
  Clean m = Ends Same (λ w. ⊤) (IsClean old) m

  -- The row is refused, or it is new and stands first.
  create_payment-row :
      (p : CreatePaymentParams) (w : World)
      → let (r, w') = wrapped "create payment" (PaymentRepo.create_payment env p) w in
        let row = new_payment env p (record w { tick = w.tick + 1 }) in
        ((succeeds r ≡ false) × (w'.payments ≡ w.payments))
        ⊎ ((r ≡ ok row)
            × (any (has_id row.id) w.payments ≡ false)
            × (w'.payments ≡ row ∷ w.payments))
  unfolding PaymentRepo.create_payment Payments.create_payment wrapped statement insert_payment
  create_payment-row p w = ground arith

  module _ {A : Type 0} (send : Payment → Action A)
      (ends : (row : Payment)
        → (fresh : any (has_id row.id) old ≡ false)
        → EndsWell env calm row old fresh (send row)) where
    failed :
        (row : Payment) {B : Type 0} (r : Result B) (w : World)
        → IsEnd (λ w. ⊤) (λ w. (t : ℕ) × (w.payments ≡ as_failed t row ∷ old)) r w
        → IsEnd (λ w. ⊤) (IsClean old) r w
    failed row (ok b) w h = tt
    failed row (err e) w (t, rows) = inr (row, t, rows, refl)

    send-Clean :
        (row : Payment) (r : Result Payment) (w : World)
        → ((succeeds r ≡ false) × (w.payments ≡ old))
          ⊎ ((r ≡ ok row) × (any (has_id row.id) old ≡ false) × (w.payments ≡ row ∷ old))
        → IsEnd (λ w. ⊤) (IsClean old) (continue r send w).0 (continue r send w).1
    send-Clean row (err e) w (inl (raised, same)) = inl same
    send-Clean row (err e) w (inr (made, fresh, first)) = ground (arith, made)
    send-Clean row (ok a) w (inl (raised, same)) = ground (arith, raised)
    send-Clean row (ok a) w (inr (made, fresh, first)) =
        let equal : a ≡ row = cc in
        rw equal (failed row (send row w).0 (send row w).1 ((ends row fresh).at w first))

    row_then-Clean : (p : CreatePaymentParams) → Clean (row_then env p send)
    unfolding ◌>>=◌
    row_then-Clean p = record {
      at = λ w h.
          let (r, w') = wrapped "create payment" (PaymentRepo.create_payment env p) w in
          send-Clean (new_payment env p (record w { tick = w.tick + 1 })) r w'
            (rw (sym h) (create_payment-row p w));
    }

  check-Ends : {A : Type 0} (r : Result A) → Ends Same Same (IsClean old) (lift r)
  check-Ends r = Ends-Keeps (lift r) (λ w h. inl h) (Keeps-lift r)

  lookup-Ends :
      (client_id key : String)
      → Ends Same Same
          (IsClean old)
          (attempt (PaymentRepo.get_payment_by_idempotency_key env client_id key))
  unfolding PaymentRepo.get_payment_by_idempotency_key Payments.get_payment_by_idempotency_key
  lookup-Ends client_id key =
      Ends-Keeps _ (λ w h. inl h)
        (Keeps-attempt _ (Keeps-wrapped _ _ (Keeps-query env _ (record { at = λ w n h. h }))))

  answer-Clean : {A : Type 0} (a : A) → Clean (pure a)
  unfolding pure
  answer-Clean a = record { at = λ w h. tt }

  step-Clean :
      {A B : Type 0} (m : Action A) (f : A → Action B)
      → Ends Same Same (IsClean old) m
      → ((a : A) → Clean (f a))
      → Clean (m >>= f)
  step-Clean m f km kf = Ends-bind m f km kf

  module _ (s : PaymentService) where
    start_stk_push-Clean :
        (req : InitiateStkPushRequest) (phone : String) (r : Result Payment)
        → Clean (start_stk_push env s req phone r)
    unfolding start_stk_push
    start_stk_push-Clean req phone (ok p) = answer-Clean (stk_replay p)
    start_stk_push-Clean req phone (err e) =
        row_then-Clean (send_stk_push env s req phone)
          (λ row fresh. send_stk_push-Ends env calm row old fresh s req phone)
          (stk_payment req phone)

    initiate_stk_push-Clean : (req : InitiateStkPushRequest) → Clean (initiate_stk_push env s req)
    unfolding initiate_stk_push
    initiate_stk_push-Clean req =
        search (step-Clean, check-Ends, lookup-Ends, start_stk_push-Clean) depth 7

    start_b2c-Clean :
        (req : InitiateB2cRequest) (phone : String) (r : Result Payment)
        → Clean (start_b2c env s req phone r)
    unfolding start_b2c
    start_b2c-Clean req phone (ok p) = answer-Clean (b2c_replay p)
    start_b2c-Clean req phone (err e) =
        row_then-Clean (send_b2c env s req phone)
          (λ row fresh. send_b2c-Ends env calm row old fresh s req phone) (b2c_payment req phone)

    initiate_b2c-Clean : (req : InitiateB2cRequest) → Clean (initiate_b2c env s req)
    unfolding initiate_b2c
    initiate_b2c-Clean req = search (step-Clean, check-Ends, lookup-Ends, start_b2c-Clean) depth 7

    start_b2b-Clean :
        (req : InitiateB2bRequest) (r : Result Payment) → Clean (start_b2b env s req r)
    unfolding start_b2b
    start_b2b-Clean req (ok p) = answer-Clean (b2b_replay p)
    start_b2b-Clean req (err e) =
        row_then-Clean (send_b2b env s req)
          (λ row fresh. send_b2b-Ends env calm row old fresh s req) (b2b_payment req)

    initiate_b2b-Clean : (req : InitiateB2bRequest) → Clean (initiate_b2b env s req)
    unfolding initiate_b2b
    initiate_b2b-Clean req = search (step-Clean, check-Ends, lookup-Ends, start_b2b-Clean) depth 7

  module _ (s : PaystackService) (req : InitiatePaystackChargeRequest) where
    start_charge-Clean : (r : Result Payment) → Clean (start_charge env s req r)
    unfolding start_charge
    start_charge-Clean (ok p) = answer-Clean (charge_replay p)
    start_charge-Clean (err e) =
        row_then-Clean (send_charge env s req)
          (λ row fresh. send_charge-Ends env calm row old fresh s req) (charge_payment req)

    initiate_charge-Clean : Clean (initiate_charge env s req)
    unfolding initiate_charge
    initiate_charge-Clean = search (step-Clean, check-Ends, lookup-Ends, start_charge-Clean) depth 7

-- An initiation of any kind that returns an error, when no statement fails: the rows of payments are as
-- before, or there is one new row, and it is marked as failed. No payment is left pending.
pub error-IsClean :
    (env : Env) (s : PaymentService) (a : Initiation) (w : World)
    → ((n : ℕ) → env.fails n ≡ false)
    → returns env s a w ≡ false
    → IsClean w.payments (after env s a w)
error-IsClean env s (Initiation.stk req) w calm =
    IsEnd-err _ _ (initiate_stk_push env s req w).0 (initiate_stk_push env s req w).1
      ((initiate_stk_push-Clean env calm w.payments s req).at w refl)
error-IsClean env s (Initiation.b2c req) w calm =
    IsEnd-err _ _ (initiate_b2c env s req w).0 (initiate_b2c env s req w).1
      ((initiate_b2c-Clean env calm w.payments s req).at w refl)
error-IsClean env s (Initiation.b2b req) w calm =
    IsEnd-err _ _ (initiate_b2b env s req w).0 (initiate_b2b env s req w).1
      ((initiate_b2b-Clean env calm w.payments s req).at w refl)
error-IsClean env s (Initiation.charge p req) w calm =
    IsEnd-err _ _ (initiate_charge env p req w).0 (initiate_charge env p req w).1
      ((initiate_charge-Clean env calm w.payments p req).at w refl)
