-- ===== src/Service/Reach/Once.antt =====
-- How often a payment is requested from the provider (internal/service/payment_service.go and
-- internal/service/paystack_service.go), and its idempotency key.
use mkwanja_payment_service.Prelude.{◌≡◌, refl, true, ◌⊎◌, inl, inr}
use mkwanja_payment_service.Db.World.{World, Env}
use mkwanja_payment_service.Service.Requests.{PaymentService}
use mkwanja_payment_service.Service.Initiate.StkPush.{stk_payment, send_stk_push}
use mkwanja_payment_service.Service.Initiate.B2c.{b2c_payment, send_b2c}
use mkwanja_payment_service.Service.Initiate.B2b.{b2b_payment, send_b2b}
use mkwanja_payment_service.Service.Paystack.Charge.{charge_payment, send_charge}
use mkwanja_payment_service.Service.Initiate.Replay.{
  IsIdle, is_known, row-IsIdle, IsIdle-IsTimeless,
}
use mkwanja_payment_service.Service.Initiations.{
  Initiation, client_of, key_of, after, RowKeeps, after-Keeps,
}
use mkwanja_payment_service.Service.Reach.{Reach, Reach-Keeps}
use mkwanja_payment_service.Service.Reach.Announce.{is_known-IsPreserved, announces}

-- An initiation of any kind whose client and idempotency key are in the table writes no row, sends no
-- request and stores no route, whichever statements fail: only the count of statements changes.
pub known_key-IsIdle :
    (env : Env) (s : PaymentService) (a : Initiation) (w : World)
    → is_known (client_of a) (key_of a) w ≡ true
    → IsIdle w (after env s a w)
known_key-IsIdle env s a w known = after-Keeps env s a (IsIdle-IsTimeless w) (rows a known) w refl
  where
    rows :
        (a : Initiation) → is_known (client_of a) (key_of a) w ≡ true → RowKeeps (IsIdle w) env s a
    rows (Initiation.stk req) known = λ valid phone normal.
        row-IsIdle env w (stk_payment req phone) known (send_stk_push env s req phone)
    rows (Initiation.b2c req) known = λ valid phone normal.
        row-IsIdle env w (b2c_payment req phone) known (send_b2c env s req phone)
    rows (Initiation.b2b req) known =
        λ valid. row-IsIdle env w (b2b_payment req) known (send_b2b env s req)
    rows (Initiation.charge service req) known =
        λ valid. row-IsIdle env w (charge_payment req) known (send_charge env service req)

-- Of two initiations with one client and one idempotency key, of whatever kinds, with any calls between
-- them and whichever statements fail: the first sends no request, or the second changes nothing but the
-- count of statements, and so sends none.
pub sent_once :
    (env env' : Env) (s s' : PaymentService) (a b : Initiation) (w v : World)
    → client_of b ≡ client_of a
    → key_of b ≡ key_of a
    → Reach (after env s a w) v
    → ((after env s a w).sent ≡ w.sent) ⊎ IsIdle v (after env' s' b v)
sent_once env env' s s' a b w v client key r = elim (announces env s a w) [
  | inl silent ↦ inl silent
  | inr known ↦ inr (
      known_key-IsIdle env' s' b v
        (rw (client, key) (Reach-Keeps (is_known-IsPreserved (client_of a) (key_of a)) r known)))
]
