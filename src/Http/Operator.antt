-- ===== src/Http/Operator.antt =====
-- PUT /v1/admin/operator/credentials of internal/handler/client_handler.go, with UpdateCredentials of
-- internal/service/client_service.go behind it.
use mkwanja_payment_service.Prelude.{ℕ, ◌+◌, ◌≡◌, refl, false, List, map, arith, ◌⊎◌}
use mkwanja_payment_service.Prelude.Result.{Result, ok, err, succeeds}
use mkwanja_payment_service.Db.World.{World, Env}
use mkwanja_payment_service.Db.Action.{◌>>=◌, wrapped, statement}
use mkwanja_payment_service.Db.Clients as Tables
use mkwanja_payment_service.Db.Payments.{has_client}
use mkwanja_payment_service.Repository.ClientRepo
use mkwanja_payment_service.Service.Clients
use mkwanja_payment_service.Service.Clients.{
  sealed, sealed_credential, store_credentials, UpdateCredentialsRequest,
}
use mkwanja_payment_service.Http.Messages.{Request, UpdateCredentialsBody}
use mkwanja_payment_service.Http.Reply.{parsed, respond}
use mkwanja_payment_service.Http.Site.{Site}
use mkwanja_payment_service.Http.Clients.{update_operator_credentials, update_request, done_reply}

module _ (env : Env) (key : List ℕ) (r : UpdateCredentialsRequest) where
  store_credentials-unknown :
      (w : World)
      → has_client r.client_id w ≡ false
      → succeeds (store_credentials env key "" "store new credentials" r w).0 ≡ false
  unfolding store_credentials sealed sealed_credential ◌>>=◌ ClientRepo.create_credentials
      Tables.create_credentials wrapped statement
  store_credentials-unknown w unknown = ground (arith, unknown)

  update_credentials-unknown :
      (w : World)
      → has_client r.client_id w ≡ false
      → succeeds (Clients.update_credentials env key r w).0 ≡ false
  unfolding Clients.update_credentials ◌>>=◌ ClientRepo.deactivate_credentials
      Tables.deactivate_credentials wrapped statement
  update_credentials-unknown w unknown =
      let off : World = record w {
        tick = w.tick + 1;
        credentials = map (Tables.inactive r.client_id) w.credentials;
      } in
      ground (arith, store_credentials-unknown off unknown)

module _ (site : Site) (env : Env) (r : Request) (w : World) where
  parsed-refused :
      (body : Result UpdateCredentialsBody)
      → has_client site.operator_client_id w ≡ false
      → (parsed body
          (λ b.
            respond
              (Clients.update_credentials env site.encrypt_key
                (update_request site.operator_client_id b))
              (done_reply site env "UPDATE_FAILED" "Operator credentials updated"))
          w).0.status
        ≡ 400
  parsed-refused (err e) unknown = refl
  parsed-refused (ok b) unknown = ground (
    arith,
    update_credentials-unknown env site.encrypt_key (update_request site.operator_client_id b) w
        unknown,
  )

  -- The update of the operator's credentials is answered with 400 or 404, whatever the request, if no row of
  -- clients has the configured name of the operator as its id.
  pub update_operator_credentials-refused :
      has_client site.operator_client_id w ≡ false
      → ((update_operator_credentials site env r w).0.status ≡ 400)
        ⊎ ((update_operator_credentials site env r w).0.status ≡ 404)
  unfolding update_operator_credentials
  update_operator_credentials-refused unknown =
      ground (arith, parsed-refused (site.parser.update r.body) unknown)
