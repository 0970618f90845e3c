-- ===== src/Server/Paid.antt =====
-- From a request for a push to the settlement of its payment, over the whole process
-- (internal/router/router.go, internal/service/payment_service.go, internal/queue/worker.go and
-- internal/db/registry.go).
pub mod Answer
pub mod Worker
pub mod Queued
use mkwanja_payment_service.Prelude.{
  ℕ, ◌+◌, String, ◌≡◌, refl, true, false, some, find, str_eq, eq_iff, is_empty, ap, ◌∙◌, sym, arith,
  ◌<>◌,
}
use mathlib.Core.Path.{subst}
use mkwanja_payment_service.Prelude.Int.{ℤ, pos, eq_ℤ}
use mkwanja_payment_service.Prelude.Result.{Result, ok}
use mkwanja_payment_service.Db.Models.{Payment, completed, null_string}
use mkwanja_payment_service.Db.World.{World, Env}
use mkwanja_payment_service.Db.Action.{wrapped}
use mkwanja_payment_service.Db.Payments.{has_id}
use mkwanja_payment_service.Service.Requests.{InitiateStkPushResult}
use mkwanja_payment_service.Service.Initiate.StkPush.{routing_key, routing_value, initiate_stk_push}
use mkwanja_payment_service.Service.Initiations.{Initiation}
use mkwanja_payment_service.Service.Initiations.Made.{returned, returned-IsNew}
use mkwanja_payment_service.Service.Initiations.Made.Rows.{IsNew}
use mkwanja_payment_service.Service.Settle
use mkwanja_payment_service.Service.Settle.Outcome.{done}
use mkwanja_payment_service.Service.Settle.Twice.{complete_payment-row}
use mkwanja_payment_service.Prelude.Split.{split_in_3}
use mkwanja_payment_service.Queue.Routing.{has_colon, split_in_3-routing_value}
use mkwanja_payment_service.Queue.Worker.{StkCallback, StkWebhookPayload, extract_mpesa_receipt}
use mkwanja_payment_service.Queue.Tasks.{Task, Decoder, stk_kind, process_task}
use mkwanja_payment_service.Queue.Push.{pushed-found, process_task-stk}
use mkwanja_payment_service.Queue.Settles.{handle_stk_webhook-completes}
use mkwanja_payment_service.Http.Messages.{Request, InitiateStkPushBody}
use mkwanja_payment_service.Http.Reply.{Reply}
use mkwanja_payment_service.Http.Site.{Site, this}
use mkwanja_payment_service.Http.Router.{ApiRoute, Route, serve}
use mkwanja_payment_service.Server.Registry.{lookup, lookup-put}
use mkwanja_payment_service.Server.{
  Server, view, left, with_pools, serve_request, named_consumer, tenant, work,
}
use mkwanja_payment_service.Server.Paid.Worker.{IsPaid, lookup-left, work-IsPaid}
use mkwanja_payment_service.Server.Paid.Answer.{push_of, IsPushed, IsResult, serve-IsResult}

module _ (site : Site) (env : Env) (r : Request) (b : InitiateStkPushBody) (f : Server) (w : World)
    (known : lookup f.pools r.consumer_id ≡ some w) (parses : site.parser.stk_push r.body ≡ ok b)
    (id checkout_id : String) where
  abbrev pub push : Reply × Server
  push = serve_request site env (Route.api ApiRoute.initiate_stk_push) r f

  abbrev made : Result InitiateStkPushResult × World
  made = initiate_stk_push env site.payments (push_of r b) (view f w)

  abbrev served : Reply × World
  served = serve (with_pools site f.pools) env (Route.api ApiRoute.initiate_stk_push) r (view f w)

  push-served : push ≡ (served.0, left f r.consumer_id w served.1)
  unfolding serve_request
  push-served = rw (known, serve_request) refl

  push-IsResult :
      IsPushed id checkout_id push.0.body push.0.replayed
      → (is_empty r.consumer_id ≡ false)
        × (push.1 ≡ left f r.consumer_id w made.1)
        × IsResult id checkout_id made.0
  push-IsResult (status, same, new) =
      let (named, v, result) =
        serve-IsResult (with_pools site f.pools) env r b (view f w) parses
          (rw (known, with_pools) refl) id checkout_id
          (
            status,
            ap (λ p. p.0.body) (sym push-served) ∙ same,
            ap (λ p. p.0.replayed) (sym push-served) ∙ new,
          ) in
      (named, ap (λ p. p.1) push-served ∙ ap (left f r.consumer_id w) v, result)

  -- A call of `initiate_stk_push` that returned a result which is no replay: the row of its payment.
  made-row :
      (out : InitiateStkPushResult)
      → made.0 ≡ ok out
      → out.payment_id ≡ id
      → out.idempotency_replayed ≡ false
      → (p : Payment) × (find (has_id id) made.1.payments ≡ some p)
        × (p.client_id ≡ b.client_id)
        × (p.amount_cents ≡ b.amount_cents)
  made-row out result same new =
      let (row, ids, status, client, key, amount, rows, sent) =
        returned-IsNew env site.payments (Initiation.stk (push_of r b)) (view f w) id
          (rw (result, same, new) refl) in
      (row, rw rows (ground (arith, ids, eq_iff row.id id)), client, amount)

module _ (site : Site) (env env' : Env) (r : Request) (b : InitiateStkPushBody) (f : Server)
    (w : World) (id checkout_id : String) (d : Decoder) (text : String)
    (payload : StkWebhookPayload) (cb : StkCallback) where
  -- A push over HTTP, for a consumer that has a database, was answered with a new payment, when no statement
  -- failed and with Redis (the consumer and the client have no colon). When the worker then takes a callback of
  -- success for its checkout id, and no statement fails: in the database of that consumer the payment is
  -- completed, with the receipt of the callback and the client and the amount of the request.
  pub serve_request-IsPaid :
      lookup f.pools r.consumer_id ≡ some w
      → site.parser.stk_push r.body ≡ ok b
      → site.payments.has_redis ≡ true
      → has_colon r.consumer_id ≡ false
      → has_colon b.client_id ≡ false
      → ((n : ℕ) → env.fails n ≡ false)
      → let (answer, g) = serve_request site env (Route.api ApiRoute.initiate_stk_push) r f in
        IsPushed id checkout_id answer.body answer.replayed
        → d.stk.payload text ≡ ok payload
        → d.stk.callback payload.raw_body ≡ ok cb
        → cb.checkout_request_id ≡ checkout_id
        → eq_ℤ cb.result_code (pos 0) ≡ true
        → ((n : ℕ) → env'.fails n ≡ false)
        → (w' : World) × (lookup
              (work env' d (record { kind = stk_kind; payload = text }) g).pools
              r.consumer_id
            ≡ some w')
          × IsPaid id b.client_id b.amount_cents (extract_mpesa_receipt cb.items) w'
  serve_request-IsPaid known parses redis plain plain_client calm shown reads_payload reads_callback
        about success calm' =
      let (named, left_so, (out, result, ids, checkout, new)) =
        push-IsResult site env r b f w known parses id checkout_id shown in
      let stored =
        pushed-found env site.payments (push_of r b) calm redis named plain plain_client (view f w)
          out result new in
      subst
        (λ g.
          (w' : World) × (lookup (work env' d (record { kind = stk_kind; payload = text }) g).pools
              r.consumer_id
            ≡ some w')
          × IsPaid id b.client_id b.amount_cents (extract_mpesa_receipt cb.items) w')
        (sym left_so)
        (work-IsPaid env' d text payload cb f w
          (initiate_stk_push env site.payments (push_of r b) (view f w)).1 r.consumer_id b.client_id
          id b.amount_cents calm' reads_payload reads_callback
          (rw (about ∙ sym checkout, ← ids) stored) named plain plain_client
          (made-row site env r b f w known parses id checkout_id out result ids new) success)
