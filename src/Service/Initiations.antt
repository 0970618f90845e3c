-- ===== src/Service/Initiations.antt =====
-- The initiations of internal/service/payment_service.go and internal/service/paystack_service.go as one
-- type of calls.
pub mod Errors
pub mod Made
pub mod Again
use mkwanja_payment_service.Prelude.{String, ◌≡◌}
use mkwanja_payment_service.Prelude.Result.{ok}
use mkwanja_payment_service.Db.World.{World, Env}
use mkwanja_payment_service.Db.Keeps.{Keeps, IsTimeless}
use mkwanja_payment_service.Domain.Phone.{normalise_phone}
use mkwanja_payment_service.Service.Requests.{
  PaymentService, InitiateStkPushRequest, InitiateB2cRequest, InitiateB2bRequest, validate_stk_push,
  validate_b2c, validate_b2b,
}
use mkwanja_payment_service.Service.Initiate.StkPush.{stk_payment, send_stk_push, initiate_stk_push}
use mkwanja_payment_service.Service.Initiate.B2c.{b2c_payment, send_b2c, initiate_b2c}
use mkwanja_payment_service.Service.Initiate.B2b.{b2b_payment, send_b2b, initiate_b2b}
use mkwanja_payment_service.Service.Paystack.{
  PaystackService, InitiatePaystackChargeRequest, validate_charge,
}
use mkwanja_payment_service.Service.Paystack.Charge.{charge_payment, send_charge, initiate_charge}
use mkwanja_payment_service.Service.Initiate.Shape.{
  row_then, initiate_stk_push-Keeps, initiate_b2c-Keeps, initiate_b2b-Keeps, initiate_charge-Keeps,
}

-- A call of one of the four initiations, a Paystack charge with the service that runs it.
pub data Initiation : Type 0 where
  stk : InitiateStkPushRequest → Initiation
  b2c : InitiateB2cRequest → Initiation
  b2b : InitiateB2bRequest → Initiation
  charge : PaystackService → InitiatePaystackChargeRequest → Initiation

abbrev pub client_of : Initiation → String
client_of (stk req) = req.client_id
client_of (b2c req) = req.client_id
client_of (b2b req) = req.client_id
client_of (charge p req) = req.client_id

abbrev pub key_of : Initiation → String
key_of (stk req) = req.idempotency_key
key_of (b2c req) = req.idempotency_key
key_of (b2b req) = req.idempotency_key
key_of (charge p req) = req.idempotency_key

-- The world after the call.
abbrev pub after : Env → PaymentService → Initiation → World → World
after env s (stk req) w = (initiate_stk_push env s req w).1
after env s (b2c req) w = (initiate_b2c env s req w).1
after env s (b2b req) w = (initiate_b2b env s req w).1
after env s (charge p req) w = (initiate_charge env p req w).1

-- The row and the request of a call keep `P`, once its checks have passed.
abbrev pub RowKeeps : (World → Type 0) → Env → PaymentService → Initiation → Type 0
RowKeeps P env s (stk req) =
    validate_stk_push req ≡ ok tt
    → (phone : String) → normalise_phone req.phone_number ≡ ok phone
    → Keeps P (row_then env (stk_payment req phone) (send_stk_push env s req phone))
RowKeeps P env s (b2c req) =
    validate_b2c req ≡ ok tt
    → (phone : String) → normalise_phone req.phone_number ≡ ok phone
    → Keeps P (row_then env (b2c_payment req phone) (send_b2c env s req phone))
RowKeeps P env s (b2b req) =
    validate_b2b req ≡ ok tt → Keeps P (row_then env (b2b_payment req) (send_b2b env s req))
RowKeeps P env s (charge p req) =
    validate_charge req ≡ ok tt
    → Keeps P (row_then env (charge_payment req) (send_charge env p req))

pub after-Keeps :
    {P : World → Type 0} (env : Env) (s : PaymentService) (a : Initiation)
    → IsTimeless P
    → RowKeeps P env s a
    → (w : World) → P w
    → P (after env s a w)
after-Keeps env s (stk req) timeless row w h =
    (initiate_stk_push-Keeps env timeless s req row).at w h
after-Keeps env s (b2c req) timeless row w h = (initiate_b2c-Keeps env timeless s req row).at w h
after-Keeps env s (b2b req) timeless row w h = (initiate_b2b-Keeps env timeless s req row).at w h
after-Keeps env s (charge p req) timeless row w h =
    (initiate_charge-Keeps env timeless p req row).at w h
