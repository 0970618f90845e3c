-- ===== src/Http/Clients.antt =====
-- internal/handler/client_handler.go
use mkwanja_payment_service.Prelude.{⊤, String, List, map, is_empty, if◌then◌else◌}
use mkwanja_payment_service.Prelude.Result.{Result, ok, err}
use mkwanja_payment_service.Db.Models.{Client}
use mkwanja_payment_service.Db.World.{Env}
use mkwanja_payment_service.Service.Clients
use mkwanja_payment_service.Service.Clients.{RegisterClientRequest, UpdateCredentialsRequest}
use mkwanja_payment_service.Service.Clients.TestCredentials
use mkwanja_payment_service.Service.Clients.TestCredentials.{TestCredentialsRequest}
use mkwanja_payment_service.Http.Messages.{
  Request, RegisterClientBody, TestCredentialsBody, UpdateCredentialsBody,
}
use mkwanja_payment_service.Http.Reply.{
  ClientItem, Body, Reply, Handler, reply, refuse, parsed, respond, answered,
}
use mkwanja_payment_service.Http.Site.{Site}

abbrev pub register_request : RegisterClientBody → RegisterClientRequest
register_request b = record {
  external_id = b.external_id;
  name = b.name;
  shortcode = b.shortcode;
  consumer_key = b.consumer_key;
  consumer_secret = b.consumer_secret;
  passkey = b.passkey;
  initiator_name = b.initiator_name;
  security_credential = b.security_credential;
}

abbrev pub test_request : TestCredentialsBody → TestCredentialsRequest
test_request b = record {
  consumer_key = b.consumer_key;
  consumer_secret = b.consumer_secret;
  shortcode = b.shortcode;
}

abbrev pub update_request : String → UpdateCredentialsBody → UpdateCredentialsRequest
update_request client_id b = record {
  client_id = client_id;
  shortcode = b.shortcode;
  consumer_key = b.consumer_key;
  consumer_secret = b.consumer_secret;
  passkey = b.passkey;
  initiator_name = b.initiator_name;
  security_credential = b.security_credential;
}

abbrev pub client_item : Client → ClientItem
client_item c = record {
  id = c.id;
  external_id = c.external_id;
  name = c.name;
  active = c.active;
  created_at = c.created_at;
}

module _ (site : Site) (env : Env) where
  abbrev pub registered_reply : Result Client → Reply
  registered_reply (err e) = refuse 400 "REGISTRATION_FAILED" (site.describe e)
  registered_reply (ok c) = reply 201 (Body.registered (client_item c))

  unfoldable pub register_client : Request → Handler
  register_client r = parsed (site.parser.client r.body) (λ b.
      respond (Clients.register_client env site.encrypt_key (register_request b)) registered_reply)

  -- A call without a result, with the code of its error and the message of its success.
  abbrev pub done_reply : String → String → Result ⊤ → Reply
  done_reply code message (err e) = refuse 400 code (site.describe e)
  done_reply code message (ok _) = reply 200 (Body.done "ok" message)

  unfoldable pub test_credentials : Request → Handler
  test_credentials r = parsed (site.parser.test r.body) (λ b.
      respond (TestCredentials.test_credentials (test_request b))
        (done_reply "TEST_FAILED" "Credentials are valid"))

  unfoldable pub update_credentials : String → Request → Handler
  update_credentials client_id r =
      if is_empty client_id
      then answered (refuse 400 "INVALID_REQUEST" "Client ID is required")
      else parsed (site.parser.update r.body) (λ b.
        respond (Clients.update_credentials env site.encrypt_key (update_request client_id b))
          (done_reply "UPDATE_FAILED" "Credentials updated"))

  unfoldable pub update_operator_credentials : Request → Handler
  update_operator_credentials r =
      if is_empty site.operator_client_id
      then answered (refuse 404 "NOT_CONFIGURED" "Operator client is not configured")
      else parsed (site.parser.update r.body) (λ b.
        respond
          (Clients.update_credentials env site.encrypt_key
            (update_request site.operator_client_id b))
          (done_reply "UPDATE_FAILED" "Operator credentials updated"))

  unfoldable pub deactivate_client : String → Handler
  deactivate_client client_id =
      if is_empty client_id
      then answered (refuse 400 "INVALID_REQUEST" "Client ID is required")
      else respond (Clients.deactivate_client env client_id)
          (done_reply "DEACTIVATION_FAILED" "Client deactivated")

  abbrev pub client_reply : Result Client → Reply
  client_reply (err e) = refuse 404 "NOT_FOUND" "Client not found"
  client_reply (ok c) = reply 200 (Body.client (client_item c) c.updated_at)

  unfoldable pub get_client : String → Handler
  get_client id =
      if is_empty id
      then answered (refuse 400 "INVALID_REQUEST" "Client ID is required")
      else respond (Clients.get_client env id) client_reply

  abbrev pub clients_reply : Result (List Client) → Reply
  clients_reply (err e) = refuse 500 "INTERNAL" "Failed to list clients"
  clients_reply (ok cs) = reply 200 (Body.clients (map client_item cs))

  unfoldable pub list_clients : Handler
  list_clients = respond (Clients.list_clients env) clients_reply
