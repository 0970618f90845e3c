-- ===== src/Service/Initiations/Again.antt =====
-- The same initiation twice (internal/service/payment_service.go and internal/service/paystack_service.go).
use mkwanja_payment_service.Prelude.{
  ◌+◌, String, ◌≡◌, refl, ap, true, false, Bool, find, some, eq_iff, arith,
}
use mathlib.Core.Path.{subst}
use mkwanja_payment_service.Prelude.Result.{Result, ok, err, wrap_err}
use mkwanja_payment_service.Db.Models.{Payment}
use mkwanja_payment_service.Db.World.{World, Env}
use mkwanja_payment_service.Db.Action.{Action, lift, ◌>>=◌}
use mkwanja_payment_service.Db.Payments.{has_key}
use mkwanja_payment_service.Domain.Phone.{normalise_phone}
use mkwanja_payment_service.Service.Requests.{
  PaymentService, validate_stk_push, validate_b2c, validate_b2b,
}
use mkwanja_payment_service.Service.Paystack.{validate_charge}
use mkwanja_payment_service.Service.Initiate.StkPush.{initiate_stk_push}
use mkwanja_payment_service.Service.Initiate.B2c.{initiate_b2c}
use mkwanja_payment_service.Service.Initiate.B2b.{initiate_b2b}
use mkwanja_payment_service.Service.Paystack.Charge.{initiate_charge}
use mkwanja_payment_service.Service.Initiate.Replay.{
  initiate_stk_push-replay, initiate_b2c-replay, initiate_b2b-replay, initiate_charge-replay,
}
use mkwanja_payment_service.Service.Initiations.{Initiation, client_of, key_of, after}
use mkwanja_payment_service.Service.Initiations.Made.{made, returned, returned-IsNew}

-- A call that returned has passed its check.
lift-ok :
    {A B : Type 0} (context : String) (r : Result A) (f : A → Action B) (w : World) (b : B)
    → ((lift (wrap_err context r) >>= f) w).0 ≡ ok b
    → (a : A) × (r ≡ ok a) × ((f a w).0 ≡ ok b)
unfolding ◌>>=◌ lift
lift-ok context (ok a) f w b h = (a, refl, h)
lift-ok context (err e) f w b h = ground (arith, h)

made-ok :
    {A : Type 0} (f : A → String × Bool) (r : Result A) (p : String × Bool)
    → made f r ≡ some p
    → (a : A) × (r ≡ ok a)
made-ok f (ok a) p h = (a, refl)
made-ok f (err e) p h = ground (arith, h)

-- The checks of a call pass.
abbrev Valid : Initiation → Type 0
Valid (Initiation.stk req) =
    (validate_stk_push req ≡ ok tt)
    × ((phone : String) × (normalise_phone req.phone_number ≡ ok phone))
Valid (Initiation.b2c req) =
    (validate_b2c req ≡ ok tt) × ((phone : String) × (normalise_phone req.phone_number ≡ ok phone))
Valid (Initiation.b2b req) = validate_b2b req ≡ ok tt
Valid (Initiation.charge p req) = validate_charge req ≡ ok tt

returned-Valid :
    (env : Env) (s : PaymentService) (a : Initiation) (w : World) (p : String × Bool)
    → returned env s a w ≡ some p
    → Valid a
unfolding initiate_stk_push initiate_b2c initiate_b2b initiate_charge
returned-Valid env s (Initiation.stk req) w p h =
    let (r, e) = made-ok _ (initiate_stk_push env s req w).0 p h in
    let (u, valid, rest) = lift-ok "validation" (validate_stk_push req) _ w r e in
    let (phone, normal, rest') =
      lift-ok "phone validation" (normalise_phone req.phone_number) _ w r rest in
    (valid, (phone, normal))
returned-Valid env s (Initiation.b2c req) w p h =
    let (r, e) = made-ok _ (initiate_b2c env s req w).0 p h in
    let (u, valid, rest) = lift-ok "validation" (validate_b2c req) _ w r e in
    let (phone, normal, rest') =
      lift-ok "phone validation" (normalise_phone req.phone_number) _ w r rest in
    (valid, (phone, normal))
returned-Valid env s (Initiation.b2b req) w p h =
    let (r, e) = made-ok _ (initiate_b2b env s req w).0 p h in
    (lift-ok "validation" (validate_b2b req) _ w r e).1
returned-Valid env s (Initiation.charge service req) w p h =
    let (r, e) = made-ok _ (initiate_charge env service req w).0 p h in
    (lift-ok "validation" (validate_charge req) _ w r e).1

abbrev Replays : Env → PaymentService → Initiation → World → Payment → Type 0
Replays env s a w p =
    (returned env s a w ≡ some (p.id, true)) × (after env s a w ≡ record w { tick = w.tick + 1 })

replays :
    {A : Type 0} (f : A → String × Bool) (x y : Result A × World)
    → x ≡ y
    → (made f x.0 ≡ made f y.0) × (x.1 ≡ y.1)
replays f x y e = (ap (λ z. made f z.0) e, ap (λ z. z.1) e)

Valid-Replays :
    (env : Env) (s : PaymentService) (a : Initiation) (w : World) (p : Payment)
    → Valid a
    → env.fails w.tick ≡ false
    → find (has_key (client_of a) (key_of a)) w.payments ≡ some p
    → Replays env s a w p
Valid-Replays env s (Initiation.stk req) w p (valid, (phone, normal)) up found =
    replays _ _ _ (initiate_stk_push-replay env s w p req phone valid normal up found)
Valid-Replays env s (Initiation.b2c req) w p (valid, (phone, normal)) up found =
    replays _ _ _ (initiate_b2c-replay env s w p req phone valid normal up found)
Valid-Replays env s (Initiation.b2b req) w p valid up found =
    replays _ _ _ (initiate_b2b-replay env s w p req valid up found)
Valid-Replays env s (Initiation.charge service req) w p valid up found =
    replays _ _ _ (initiate_charge-replay env service w p req valid up found)

-- A call that is made again after it returned a new payment, when the statement that looks up its key does not
-- fail: the second one returns the same payment, as a replay, and changes nothing but the count of statements.
pub returned-again :
    (env env' : Env) (s s' : PaymentService) (a : Initiation) (w : World) (id : String)
    → returned env s a w ≡ some (id, false)
    → env'.fails (after env s a w).tick ≡ false
    → let v = after env s a w in
      (returned env' s' a v ≡ some (id, true))
      × (after env' s' a v ≡ record v { tick = v.tick + 1 })
returned-again env env' s s' a w id first up =
    let v = after env s a w in
    let new = returned-IsNew env s a w id first in
    let row = new.0 in
    let here : has_key (client_of a) (key_of a) row ≡ true =
      rw
        (
          new.3,
          new.4,
          (eq_iff (client_of a) (client_of a)).1 refl,
          (eq_iff (key_of a) (key_of a)).1 refl,
        )
        refl in
    let found : find (has_key (client_of a) (key_of a)) v.payments ≡ some row =
      rw (new.6, here) refl in
    let again =
      Valid-Replays env' s' a v row (returned-Valid env s a w (id, false) first) up found in
    subst
      (λ i.
        (returned env' s' a v ≡ some (i, true))
        × (after env' s' a v ≡ record v { tick = v.tick + 1 }))
      (new.1) again
