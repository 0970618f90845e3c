-- ===== src/Service/Initiations/Made/Rows.antt =====
-- The rules for an initiation that returns no error (internal/service/payment_service.go and
-- internal/service/paystack_service.go): the checks, the row, and what follows it.
use mkwanja_payment_service.Prelude.{
  ◌+◌, String, ◌≡◌, refl, sym, ap, ◌∙◌, false, true, Bool, ◌∷◌, any, ◌⊎◌, inl, inr, arith,
}
use mkwanja_payment_service.Prelude.Int.{ℤ}
use mkwanja_payment_service.Prelude.Result.{Result, ok, err, succeeds, wrap_err}
use mkwanja_payment_service.Daraja.Messages.{Sent}
use mkwanja_payment_service.Db.Models.{Payment, pending}
use mkwanja_payment_service.Db.World.{World, Env}
use mkwanja_payment_service.Db.Action.{
  Action, pure, lift, attempt, wrapped, statement, continue, ◌>>=◌,
}
use mkwanja_payment_service.Db.Keeps.{Keeps-attempt, Keeps-wrapped, Keeps-query}
use mkwanja_payment_service.Db.Payments
use mkwanja_payment_service.Db.Payments.{
  CreatePaymentParams, has_id, new_payment, insert_payment, with_request_id,
}
use mkwanja_payment_service.Repository.PaymentRepo
use mkwanja_payment_service.Service.Preserved.Backs.{is_row_of}
use mkwanja_payment_service.Service.Initiate.Shape.{row_then}
use mkwanja_payment_service.Service.Initiate.Made.{Gives, Gives-bind, Gives-Keeps, IsMade, IsDone}

-- One new row, pending and with this id, client, key and amount, and one new request, for what the row says.
abbrev pub IsNew : String → String → String → ℤ → World → World → Type 0
IsNew id client_id key cents w w' =
    (row : Payment) × (row.id ≡ id)
    × (row.status ≡ pending)
    × (row.client_id ≡ client_id)
    × (row.idempotency_key ≡ key)
    × (row.amount_cents ≡ cents)
    × (w'.payments ≡ row ∷ w.payments)
    × ((r : Sent) × (is_row_of r row ≡ true) × (w'.sent ≡ r ∷ w.sent))

module _ (w0 : World) where
  -- Nothing was written or sent.
  abbrev pub Same : World → Type 0
  Same w = (w.payments ≡ w0.payments) × (w.sent ≡ w0.sent)

  abbrev pub Made : CreatePaymentParams → String → World → Type 0
  Made p id w = IsNew id p.client_id p.idempotency_key p.amount_cents w0 w

  IsDone-Made :
      (env : Env) (p : CreatePaymentParams) (u w : World) (id : String)
      (fresh : any (has_id (new_payment env p u).id) w0.payments ≡ false)
      → id ≡ (new_payment env p u).id
      → IsDone (new_payment env p u) w0.payments w0.sent fresh w
      → Made p id w
  IsDone-Made env p u w id fresh same (inl rows, asked) =
      (new_payment env p u, sym same, refl, refl, refl, refl, rows, asked)
  IsDone-Made env p u w id fresh same (inr (now, request_id, tx, rows), asked) = (
    with_request_id now request_id tx (new_payment env p u),
    sym same,
    refl,
    refl,
    refl,
    refl,
    rows,
    asked,
  )

  create_payment-made :
      (env : Env) (p : CreatePaymentParams) (w : World)
      → let (r, w') = wrapped "create payment" (PaymentRepo.create_payment env p) w in
        let row = new_payment env p (record w { tick = w.tick + 1 }) in
        (succeeds r ≡ false)
        ⊎ ((r ≡ ok row)
            × (any (has_id row.id) w.payments ≡ false)
            × (w'.payments ≡ row ∷ w.payments)
            × (w'.sent ≡ w.sent))
  unfolding PaymentRepo.create_payment Payments.create_payment wrapped statement insert_payment
  create_payment-made env p w = ground arith

  module _ {A : Type 0} (id_of : A → String) (replayed : A → Bool) where
    -- The payment was there, or it was made.
    abbrev pub Result-Made : CreatePaymentParams → A → World → Type 0
    Result-Made p a w = (replayed a ≡ true) ⊎ Made p (id_of a) w

    module _ (env : Env) (p : CreatePaymentParams) (send : Payment → Action A)
        (sends : (u : World) (fresh : any (has_id (new_payment env p u).id) w0.payments ≡ false)
          → Gives
              (IsMade (new_payment env p u) w0.payments w0.sent fresh)
              (λ a w.
                (id_of a ≡ (new_payment env p u).id)
                × IsDone (new_payment env p u) w0.payments w0.sent fresh w)
              (send (new_payment env p u))) where
      send-made :
          (u : World) (r : Result Payment) (w : World) (a : A)
          → (succeeds r ≡ false)
            ⊎ ((r ≡ ok (new_payment env p u))
                × (any (has_id (new_payment env p u).id) w0.payments ≡ false)
                × (w.payments ≡ new_payment env p u ∷ w0.payments)
                × (w.sent ≡ w0.sent))
          → (continue r send w).0 ≡ ok a
          → Result-Made p a (continue r send w).1
      send-made u (err e) w a made h = ground (arith, h)
      send-made u (ok q) w a (inl refused) h = ground (arith, refused)
      send-made u (ok q) w a (inr (row, fresh, rows, silent)) h =
          let same : q ≡ new_payment env p u = cc in
          let h' : (send (new_payment env p u) w).0 ≡ ok a =
            ap (λ x. (send x w).0) (sym same) ∙ h in
          let (id, done) = (sends u fresh).at w a (rows, silent) h' in
          rw same
            (inr (IsDone-Made env p u (send (new_payment env p u) w).1 (id_of a) fresh id done))

      pub row_then-made : Gives Same (Result-Made p) (row_then env p send)
      unfolding ◌>>=◌
      row_then-made = record {
        at = λ w a (rows, silent) h.
            let (r, w') = wrapped "create payment" (PaymentRepo.create_payment env p) w in
            send-made (record w { tick = w.tick + 1 }) r w' a
              (rw (sym rows, sym silent) (create_payment-made env p w)) h;
      }

  -- The steps before the row.
  module _ {A B : Type 0} {Q : B → World → Type 0} where
    pub lift-gives :
        (context : String) (r : Result A) (f : A → Action B)
        → ((a : A) → r ≡ ok a → Gives Same Q (f a))
        → Gives Same Q (lift (wrap_err context r) >>= f)
    unfolding ◌>>=◌ lift
    lift-gives context (ok a) f k = record { at = λ w b p h. (k a refl).at w b p h }
    lift-gives context (err e) f k = record { at = λ w b p h. ground (arith, h) }

  module _ {B : Type 0} {Q : B → World → Type 0} (env : Env) where
    pub lookup-gives :
        (client_id key : String) (f : Result Payment → Action B)
        → ((r : Result Payment) → Gives Same Q (f r))
        → Gives Same Q
            (attempt (PaymentRepo.get_payment_by_idempotency_key env client_id key) >>= f)
    unfolding PaymentRepo.get_payment_by_idempotency_key Payments.get_payment_by_idempotency_key
    lookup-gives client_id key f k =
        Gives-bind _ f
          (Gives-Keeps _
            (Keeps-attempt _ (Keeps-wrapped _ _ (Keeps-query env _ (record { at = λ w n h. h })))))
          k

  pub replay-gives :
      {A : Type 0} (id_of : A → String) (replayed : A → Bool) (p : CreatePaymentParams) (a : A)
      → replayed a ≡ true
      → Gives Same (Result-Made id_of replayed p) (pure a)
  unfolding pure
  replay-gives id_of replayed p a old = record { at = λ w b q h. ground (arith, old, h) }
