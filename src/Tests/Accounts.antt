-- ===== src/Tests/Accounts.antt =====
-- The theorems about clients, at concrete inputs.
use mkwanja_payment_service.Prelude.{◌≡◌, refl, [], ◌∷◌, false, some, any}
use mkwanja_payment_service.Service.Settle.Books.{IsChart}
use mkwanja_payment_service.Service.Clients.{
  seed, default_accounts, update_credentials, validate_update, store_credentials, sealed,
  UpdateCredentialsRequest,
}
use mkwanja_payment_service.Service.Clients.Seeds.{seed-IsChart}
use mkwanja_payment_service.Service.Clients.Active.{IsSingle, ClientCall, after, after-IsSingle}
use mkwanja_payment_service.Db.World.{Env}
use mkwanja_payment_service.Db.Clients
use mkwanja_payment_service.Db.Clients.{is_active_for}
use mkwanja_payment_service.Db.Action.{◌>>=◌, wrapped}
use mkwanja_payment_service.Repository.ClientRepo
use mkwanja_payment_service.Crypto.{encrypt}
use mkwanja_payment_service.Tests.Data.{calm, fresh}

seed-IsChart_example :
    IsChart "c1" (seed calm "c1" default_accounts (record fresh { accounts = [] })).1.accounts
seed-IsChart_example = seed-IsChart calm "c1" (record fresh { accounts = [] }) (λ n. refl) refl

abbrev rotation : UpdateCredentialsRequest
rotation = record {
  client_id = "c1";
  shortcode = "174379";
  consumer_key = "key";
  consumer_secret = "secret";
  passkey = "passkey";
  initiator_name = "";
  security_credential = "";
}

after-IsSingle_example : IsSingle (after calm [] (ClientCall.update rotation) fresh).credentials
after-IsSingle_example = after-IsSingle calm [] (ClientCall.update rotation) fresh (refl, tt)

-- A source of random bytes.
abbrev drawing : Env
drawing = record calm { random = λ n. some (7 ∷ []) }

-- The random source of `calm` fails, so the update fails after the old row is inactive.
strands : any (is_active_for "c1") (update_credentials calm [] rotation fresh).1.credentials ≡ false
unfolding update_credentials ◌>>=◌ validate_update ClientRepo.deactivate_credentials
    Clients.deactivate_credentials wrapped store_credentials sealed encrypt
strands = refl
