-- ===== src/Server/Paid/Answer.antt =====
-- What the answer to a request for a push says about the payment service (internal/router/router.go,
-- internal/handler/payment_handler.go).
use mkwanja_payment_service.Prelude.{String, ◌≡◌, refl, Bool, false, arith, is_empty, ap, sym, ◌∙◌}
use mkwanja_payment_service.Prelude.Result.{Result, ok, err}
use mkwanja_payment_service.Db.World.{World, Env}
use mkwanja_payment_service.Service.Requests.{InitiateStkPushRequest, InitiateStkPushResult}
use mkwanja_payment_service.Service.Initiate.StkPush
use mkwanja_payment_service.Http.Messages.{Request, InitiateStkPushBody}
use mkwanja_payment_service.Http.Reply.{Body, respond}
use mkwanja_payment_service.Http.Site.{Site, this}
use mkwanja_payment_service.Http.Payments
use mkwanja_payment_service.Http.Payments.{push_reply, stk_push_request}
use mkwanja_payment_service.Http.Router.{
  ApiRoute, Route, consumer, idempotency, keyed, endpoint, serve,
}

-- The request that the handler makes of a body.
abbrev pub push_of : Request → InitiateStkPushBody → InitiateStkPushRequest
push_of r =
    stk_push_request (record { consumer_id = r.consumer_id; idempotency_key = r.idempotency_key })

-- The answer shows a payment, and is no replay.
abbrev pub IsPushed : String → String → Body → Bool → Type 0
IsPushed id checkout_id body replayed =
    (status : String) × (body ≡ Body.push id checkout_id status) × (replayed ≡ false)

-- The result that an answer comes from.
abbrev pub IsResult : String → String → Result InitiateStkPushResult → Type 0
IsResult id checkout_id r =
    (out : InitiateStkPushResult) × (r ≡ ok out)
    × (out.payment_id ≡ id)
    × (out.checkout_request_id ≡ checkout_id)
    × (out.idempotency_replayed ≡ false)

module _ (site : Site) (env : Env) (r : Request) (b : InitiateStkPushBody) (w : World)
    (parses : site.parser.stk_push r.body ≡ ok b) (ours : site.pools r.consumer_id ≡ this)
    (id checkout_id : String) where
  push_reply-IsResult :
      (out : Result InitiateStkPushResult)
      → IsPushed id checkout_id (push_reply site env out).body (push_reply site env out).replayed
      → IsResult id checkout_id out
  push_reply-IsResult (err e) (status, same, new) = ground arith
  push_reply-IsResult (ok out) (status, same, new) = (out, refl, ground arith, ground arith, new)

  serve-push :
      (status : String)
      → (serve site env (Route.api ApiRoute.initiate_stk_push) r w).0.body
        ≡ Body.push id checkout_id status
      → (is_empty r.consumer_id ≡ false)
        × (serve site env (Route.api ApiRoute.initiate_stk_push) r w
            ≡ respond
                (StkPush.initiate_stk_push env site.payments (push_of r b))
                (push_reply site env)
                w)
  unfolding serve consumer keyed idempotency endpoint Payments.initiate_stk_push
  serve-push status same = ground (arith, same, parses, ours)

  -- An answer that shows a new payment comes from the payment service, and so does the database.
  pub serve-IsResult :
      let (answer, w') = serve site env (Route.api ApiRoute.initiate_stk_push) r w in
      let (out, v) = StkPush.initiate_stk_push env site.payments (push_of r b) w in
      IsPushed id checkout_id answer.body answer.replayed
      → (is_empty r.consumer_id ≡ false) × (w' ≡ v) × IsResult id checkout_id out
  serve-IsResult (status, same, new) =
      let (named, served) = serve-push status same in
      (
        named,
        ap (λ p. p.1) served,
        push_reply-IsResult _ (
          status,
          ap (λ p. p.0.body) (sym served) ∙ same,
          ap (λ p. p.0.replayed) (sym served) ∙ new,
        ),
      )
