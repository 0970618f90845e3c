-- ===== src/Service/Clients/TestCredentials.antt =====
-- internal/service/client_service.go: `TestCredentials`.
use mkwanja_payment_service.Prelude.{⊤, String, is_empty}
use mkwanja_payment_service.Prelude.Result.{Result, ok, wrap_err, ◌fails_with◌then◌}
use mkwanja_payment_service.Db.Action.{Action, lift}

pub record TestCredentialsRequest : Type 0 where
  pub consumer_key : String
  pub consumer_secret : String
  pub shortcode : String

unfoldable pub validate_test : TestCredentialsRequest → Result ⊤
validate_test r =
    is_empty r.consumer_key
    fails_with "consumer_key is required" then is_empty r.consumer_secret
    fails_with "consumer_secret is required" then is_empty r.shortcode
    fails_with "shortcode is required" then ok tt

unfoldable pub test_credentials : TestCredentialsRequest → Action ⊤
unfolding validate_test
test_credentials r = lift (wrap_err "validation" (validate_test r))
