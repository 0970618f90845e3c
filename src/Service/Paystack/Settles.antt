-- ===== src/Service/Paystack/Settles.antt =====
-- The webhook of a genuine event (`HandleWebhook` of internal/service/paystack_service.go) settles its
-- payment.
use mkwanja_payment_service.Prelude.{
  ⊤, ℕ, ◌+◌, String, ◌≡◌, refl, false, List, [], ◌∷◌, some, find, arith, is_empty, eq_iff, ◌<>◌,
  ◌⊎◌, inl, inr,
}
use mathlib.Core.Path.{subst, sym}
use mkwanja_payment_service.Prelude.Decimal.{decimal_int}
use mkwanja_payment_service.Prelude.Result.{Result, ok}
use mkwanja_payment_service.Db.Models.{Payment, failed}
use mkwanja_payment_service.Db.Payments.{has_id}
use mkwanja_payment_service.Service.Settle.Ends.{
  IsSame, IsCompleted, IsApart, complete_payment-IsCompleted, fail_payment-IsFailed,
}
use mkwanja_payment_service.Db.World.{World, Env}
use mkwanja_payment_service.Db.Action.{◌>>=◌, query, wrapped}
use mkwanja_payment_service.Db.Payments
use mkwanja_payment_service.Db.Clients
use mkwanja_payment_service.Repository.PaymentRepo
use mkwanja_payment_service.Repository.ClientRepo
use mkwanja_payment_service.Service.Settle
use mkwanja_payment_service.Service.Paystack.{PaystackService}
use mkwanja_payment_service.Service.Paystack.Webhook.{
  handle_webhook, follow_event, verified, settle_event,
}
use mkwanja_payment_service.Service.Paystack.Genuine.{IsGenuine}

found_id :
    (id : String) (ps : List Payment) (p : Payment) → find (has_id id) ps ≡ some p → p.id ≡ id
found_id id [] p h = ground (arith, h)
found_id id (q ∷ ps) p h = ground (arith, h, found_id id ps p, eq_iff q.id id)

module _ (env : Env) (s : PaystackService) (raw_body : List ℕ) (signature : String) (w : World)
    (g : IsGenuine env s raw_body signature w) (calm : (n : ℕ) → env.fails n ≡ false)
    (named : is_empty g.event.reference ≡ false) where
  -- After the two lookups.
  abbrev looked_up : World
  looked_up = record w { tick = w.tick + 1 + 1 }

  handle_webhook-acts :
      handle_webhook env s raw_body signature w ≡ settle_event env s g.event g.payment looked_up
  unfolding handle_webhook follow_event verified ◌>>=◌ PaymentRepo.get_payment_by_id
      Payments.get_payment_by_id ClientRepo.get_active_paystack_credentials
      Clients.get_active_paystack_credentials query wrapped
  handle_webhook-acts =
      simp (g.parses, named, calm w.tick, calm (w.tick + 1), g.found, g.active, g.opens, g.signed)

  -- Whether the event is a success or a failure, and what it makes of the row.
  abbrev pub IsFollowed : Payment → Type 0
  IsFollowed q =
      ((g.event.event ≡ "charge.success")
        × IsCompleted g.event.reference (decimal_int g.event.id) q)
      ⊎ ((g.event.event ≡ "charge.failed") × (q.status ≡ failed))

  -- The payment with this id is settled, and no error is returned.
  abbrev pub IsSettled : String → Result ⊤ × World → Type 0
  IsSettled id out =
      (out.0 ≡ ok tt)
      × ((q : Payment) × (find (has_id id) out.1.payments ≡ some q)
          × IsSame g.payment q
          × IsFollowed q
          × IsApart id w.payments out.1.payments)

  same_id : g.payment.id ≡ g.event.reference
  same_id = found_id g.event.reference w.payments g.payment g.found

  found : find (has_id g.payment.id) w.payments ≡ some g.payment
  found = subst (λ id. find (has_id id) w.payments ≡ some g.payment) (sym same_id) g.found

  completed-IsSettled :
      g.event.event ≡ "charge.success"
      → IsSettled g.payment.id (
          wrapped
            ("complete payment " <> g.payment.id)
            (Settle.complete_payment env g.payment.id g.event.reference (decimal_int g.event.id))
            looked_up)
  unfolding wrapped
  completed-IsSettled success =
      let (fine, (q, here, same, done, apart, books)) =
        complete_payment-IsCompleted env looked_up g.payment.id g.event.reference
          (decimal_int g.event.id) g.payment found (calm looked_up.tick) in
      (rw fine refl, (q, here, same, inl (success, done), apart))

  failed-IsSettled :
      g.event.event ≡ "charge.failed"
      → IsSettled g.payment.id (
          wrapped
            ("fail payment " <> g.payment.id)
            (Settle.fail_payment env g.payment.id g.event.status)
            looked_up)
  unfolding wrapped
  failed-IsSettled failure =
      let (fine, (q, here, same, status, receipt, apart, books)) =
        fail_payment-IsFailed env looked_up g.payment.id g.event.status g.payment found
          (calm looked_up.tick) in
      (rw fine refl, (q, here, same, inr (failure, status), apart))

  settle_event-IsSettled : IsSettled g.payment.id (settle_event env s g.event g.payment looked_up)
  unfolding settle_event
  settle_event-IsSettled = elim g.agrees [
    | inl (success, same) ↦
        let acts : settle_event env s g.event g.payment looked_up
            ≡ wrapped ("complete payment " <> g.payment.id)
                (Settle.complete_payment env g.payment.id g.event.reference
                  (decimal_int g.event.id))
                looked_up =
          simp ((eq_iff _ _).1 success, same) in
        subst (IsSettled g.payment.id) (sym acts) (completed-IsSettled success)
    | inr failure ↦
        let acts : settle_event env s g.event g.payment looked_up
            ≡ wrapped ("fail payment " <> g.payment.id)
                (Settle.fail_payment env g.payment.id g.event.status) looked_up =
          rw failure refl in
        subst (IsSettled g.payment.id) (sym acts) (failed-IsSettled failure)
  ]

  -- A genuine webhook whose event names a payment, when no statement fails, returns no error. The payment
  -- with that id is the same payment, with its client, key and amount; it is completed, with the reference as
  -- its receipt and the id of the event as the provider's id, if the event is a success, and failed, if the
  -- event is a failure; the rows of other ids are as before.
  pub handle_webhook-settles :
      IsSettled g.event.reference (handle_webhook env s raw_body signature w)
  handle_webhook-settles =
      subst (λ id. IsSettled id (handle_webhook env s raw_body signature w)) same_id
        (subst (IsSettled g.payment.id) (sym handle_webhook-acts) settle_event-IsSettled)
