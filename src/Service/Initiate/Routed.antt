-- ===== src/Service/Initiate/Routed.antt =====
-- The route that a push leaves for its callback (`InitiateSTKPush` of internal/service/payment_service.go).
use mkwanja_payment_service.Prelude.{
  ⊤, ℕ, ◌+◌, String, ◌≡◌, ap, none, true, false, List, ◌∷◌, ◌⊎◌, inl, inr, arith,
}
use mkwanja_payment_service.Prelude.Result.{Result, ok, err}
use mkwanja_payment_service.Daraja.Messages.{StkPushResponse}
use mkwanja_payment_service.Db.Models.{Payment, null_string}
use mkwanja_payment_service.Db.World.{World, Env}
use mkwanja_payment_service.Db.Action.{Action, pure, attempt, statement, ◌>>=◌}
use mkwanja_payment_service.Repository.PaymentRepo
use mkwanja_payment_service.Service.Requests.{
  PaymentService, InitiateStkPushRequest, InitiateStkPushResult,
}
use mkwanja_payment_service.Service.Initiate.Common.{store_route}
use mkwanja_payment_service.Service.Initiate.Made.{Gives, Gives-bind}
use mkwanja_payment_service.Service.Initiate.StkPush.{
  routing_key, routing_value, record_stk_push, send_stk_push, start_stk_push, initiate_stk_push,
  stk_result,
}

module _ (env : Env) (s : PaymentService) (req : InitiateStkPushRequest)
    (calm : (n : ℕ) → env.fails n ≡ false) (redis : s.has_redis ≡ true) where
  -- The result is a replay, or its route was stored last.
  abbrev pub IsRouted : InitiateStkPushResult → World → Type 0
  IsRouted r w =
      (r.idempotency_replayed ≡ true)
      ⊎ ((rest : List (String × String)) × (w.routes
            ≡ (
              routing_key r.checkout_request_id,
              routing_value req.consumer_id req.client_id r.payment_id,
            )
              ∷ rest))

  abbrev Always : World → Type 0
  Always w = ⊤

  first :
      {A B : Type 0} {Q : B → World → Type 0} (m : Action A) (f : A → Action B)
      → ((a : A) → Gives Always Q (f a))
      → Gives Always Q (m >>= f)
  first m f gives = Gives-bind m f (record { at = λ w a always h. tt }) gives

  -- After the statement that stores the provider's id.
  abbrev noted : Payment → StkPushResponse → World → World
  noted p resp w =
      (PaymentRepo.update_provider_request_id env p.id (null_string resp.checkout_request_id) none
        w).1

  record_stk_push-runs :
      (p : Payment) (resp : StkPushResponse) (w : World)
      → let u = noted p resp w in
        record_stk_push env s req p resp w ≡ (
          ok (stk_result p resp),
          record u {
            tick = u.tick + 1;
            routes =
                (
                  routing_key resp.checkout_request_id,
                  routing_value req.consumer_id req.client_id p.id,
                )
                ∷ u.routes;
          },
        )
  unfolding record_stk_push ◌>>=◌ attempt store_route statement pure
  record_stk_push-runs p resp w = simp (redis, calm (noted p resp w).tick)

  record_stk_push-Gives :
      (p : Payment) (resp : StkPushResponse)
      → Gives Always (λ r w. IsRouted r w) (record_stk_push env s req p resp)
  record_stk_push-Gives p resp = record {
    at = λ w a always h.
        let runs = record_stk_push-runs p resp w in
        let u = noted p resp w in
        let same : a ≡ stk_result p resp = ground (arith, h, runs) in
        rw same
          (inr (u.routes, ap (λ (r : Result InitiateStkPushResult × World). r.1.routes) runs));
  }

  send_stk_push-Gives :
      (phone : String) (p : Payment)
      → Gives Always (λ r w. IsRouted r w) (send_stk_push env s req phone p)
  unfolding send_stk_push
  send_stk_push-Gives phone p = search (first, record_stk_push-Gives)

  start_stk_push-Gives :
      (phone : String) (r : Result Payment)
      → Gives Always (λ r w. IsRouted r w) (start_stk_push env s req phone r)
  unfolding start_stk_push pure
  start_stk_push-Gives phone (ok p) = record { at = λ w a always h. inl (ground (arith, h)) }
  start_stk_push-Gives phone (err e) = search (first, send_stk_push-Gives)

  -- A push that returns a result, with Redis and when no statement fails, was a replay, or its route for
  -- the callback was stored last.
  pub initiate_stk_push-IsRouted :
      (w : World) (r : InitiateStkPushResult)
      → (initiate_stk_push env s req w).0 ≡ ok r
      → IsRouted r (initiate_stk_push env s req w).1
  unfolding initiate_stk_push
  initiate_stk_push-IsRouted w r = initiate_stk_push-Gives.at w r tt
    where
      initiate_stk_push-Gives : Gives Always (λ r w. IsRouted r w) (initiate_stk_push env s req)
      initiate_stk_push-Gives = search (first, start_stk_push-Gives)
