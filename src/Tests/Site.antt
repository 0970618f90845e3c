-- ===== src/Tests/Site.antt =====
-- The theorems about the service over HTTP, card payments and cycles that settle, at concrete inputs.
use mathlib.Core.List.{Perm}
use mkwanja_payment_service.Prelude.Int.{ℤ, pos, pos_part, wrap32}
use mkwanja_payment_service.Prelude.{
  some, find, map, take, drop, ◌≡◌, refl, true, false, List, ◌⊎◌, inl, [], any, str_eq,
}
use mkwanja_payment_service.Prelude.Result.{ok}
use mkwanja_payment_service.Prelude.Decimal.{decimal_int}
use mkwanja_payment_service.Crypto.{decrypt, encrypt}
use mkwanja_payment_service.Db.Action.{◌>>=◌, wrapped, query}
use mkwanja_payment_service.Service.Initiate.Replay.{IsIdle}
use mkwanja_payment_service.Service.Paystack.Webhook.{handle_webhook}
use mkwanja_payment_service.Db.Models.{Payment, failed}
use mkwanja_payment_service.Db.Payments.{has_id}
use mkwanja_payment_service.Service.Settle.Ends.{IsSame, IsCompleted, IsApart}
use mkwanja_payment_service.Service.Paystack.Settles
use mkwanja_payment_service.Paystack.Messages.{verify_webhook_signature}
use mkwanja_payment_service.Service.Paystack.Genuine.{IsGenuine, handle_webhook-IsGenuine}
use mkwanja_payment_service.Http.Messages.{query_int}
use mkwanja_payment_service.Http.Reply.{Body, reply}
use mkwanja_payment_service.Http.Payments.{payment_item, list_payments}
use mkwanja_payment_service.Http.Pages.{mine, IsNewestFirst, IsLimit, IsOffset, list_payments-page}
use mkwanja_payment_service.Http.Site.{Site, this}
use mkwanja_payment_service.Http.Operator
use mkwanja_payment_service.Http.Clients.{update_operator_credentials}
use mkwanja_payment_service.Service.Clients.{ensure_operator_client, operator_client}
use mkwanja_payment_service.Db.World.{World}
use mkwanja_payment_service.Db.Clients
use mkwanja_payment_service.Repository.ClientRepo
use mkwanja_payment_service.Http.Router.{ApiRoute, Route, post, serve}
use mkwanja_payment_service.Http.Router.Guarded.{is_valid, IsKeyed, serve-IsGuarded}
use mkwanja_payment_service.Http.Router.Steps.{IsStep, serve-IsStep}
use mkwanja_payment_service.Tests.Data.{calm, fresh, busy, first_payment}
use mkwanja_payment_service.Tests.SiteData.{
  hooked, keys, paid_event, paystack_service, site, request,
}

handle_webhook-IsGenuine_example :
    IsIdle hooked (handle_webhook calm paystack_service [] "signature" hooked).1
    ⊎ IsGenuine calm paystack_service [] "signature" hooked
handle_webhook-IsGenuine_example =
    handle_webhook-IsGenuine calm paystack_service [] "signature" hooked

genuine_event : IsGenuine calm paystack_service [] "signature" hooked
unfolding decrypt verify_webhook_signature
genuine_event = record {
  event = paid_event;
  payment = first_payment;
  creds = keys;
  secret_key = "hi";
  parses = refl;
  found = refl;
  active = refl;
  opens = refl;
  signed = refl;
  agrees = inl (refl, refl);
}

handle_webhook-settles_example :
    let (r, w') = handle_webhook calm paystack_service [] "signature" hooked in
    (r ≡ ok tt)
    × ((q : Payment) × (find (has_id "p1") w'.payments ≡ some q)
        × IsSame first_payment q
        × (((paid_event.event ≡ "charge.success") × IsCompleted "p1" "7" q)
            ⊎ ((paid_event.event ≡ "charge.failed") × (q.status ≡ failed)))
        × IsApart "p1" hooked.payments w'.payments)
unfolding genuine_event decimal_int
handle_webhook-settles_example =
    Settles.handle_webhook-settles calm paystack_service [] "signature" hooked genuine_event
      (λ n. refl) refl

serve-IsGuarded_example :
    let (reply, w') =
      serve site calm (Route.api ApiRoute.initiate_stk_push) (request "guess") fresh in
    ((is_valid site calm (request "guess") fresh ≡ false) × (reply.status ≡ 401) × (w' ≡ fresh))
    ⊎ ((is_valid site calm (request "guess") fresh ≡ true)
        × ((w' ≡ fresh)
            ⊎ ((site.pools "shopify" ≡ this) × IsKeyed site calm (request "guess") fresh post)))
serve-IsGuarded_example =
    serve-IsGuarded site calm (request "guess") fresh ApiRoute.initiate_stk_push

serve-IsStep_example :
    IsStep site calm fresh
      (serve site calm (Route.api ApiRoute.initiate_stk_push) (request "open") fresh).1
serve-IsStep_example =
    serve-IsStep site calm fresh (Route.api ApiRoute.initiate_stk_push) (request "open")

list_payments-page_example :
    (all : List Payment) × (limit : ℤ) × (offset : ℤ) × Perm all
      (mine site calm (request "open") busy)
    × IsNewestFirst all
    × IsLimit (wrap32 (query_int (request "open").limit (pos 20))) limit
    × IsOffset (wrap32 (query_int (request "open").offset (pos 0))) offset
    × ((list_payments site calm (request "open") busy).0
        ≡ reply 200 (
            Body.payments
              (map payment_item (take (pos_part limit) (drop (pos_part offset) all)))
              limit
              offset))
list_payments-page_example = list_payments-page site calm (request "open") busy refl refl

abbrev operated : Site
operated = record site { operator_client_id = "operator" }

-- The operator is set up at start, under the name that the site is configured with.
abbrev started : World
started = (ensure_operator_client calm [] operated.operator_client_id "" fresh).1

operator_has_row : any (λ c. str_eq c.external_id "operator") started.clients ≡ true
unfolding ensure_operator_client operator_client ◌>>=◌ ClientRepo.create_client
    Clients.create_client wrapped ClientRepo.get_client_by_external_id
    Clients.get_client_by_external_id query encrypt
operator_has_row = refl

update_operator_credentials-refused_example :
    ((update_operator_credentials operated calm (request "open") started).0.status ≡ 400)
    ⊎ ((update_operator_credentials operated calm (request "open") started).0.status ≡ 404)
unfolding ensure_operator_client operator_client ClientRepo.get_client_by_external_id
    Clients.get_client_by_external_id query ClientRepo.create_client Clients.create_client encrypt
update_operator_credentials-refused_example =
    Operator.update_operator_credentials-refused operated calm (request "open") started refl
