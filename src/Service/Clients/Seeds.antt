-- ===== src/Service/Clients/Seeds.antt =====
-- The accounts that a new client starts with (internal/service/client_service.go), and the client that is
-- there already.
use mkwanja_payment_service.Prelude.{
  ℕ, ◌+◌, String, ◌≡◌, refl, ap, ◌∙◌, true, false, List, [], ◌∷◌, some, find, any, All, arith,
  eq_iff, str_eq, is_empty,
}
use mkwanja_payment_service.Prelude.Result.{ok}
use mkwanja_payment_service.Db.Models.{Client}
use mkwanja_payment_service.Db.World.{World, Env}
use mkwanja_payment_service.Db.Action.{◌>>=◌, wrapped, query}
use mkwanja_payment_service.Db.Clients
use mkwanja_payment_service.Db.Payments.{has_client}
use mkwanja_payment_service.Db.Journal
use mkwanja_payment_service.Db.Journal.{is_account, CreateJournalAccountParams}
use mkwanja_payment_service.Repository.ClientRepo
use mkwanja_payment_service.Service.Settle.Books.{IsChart}
use mkwanja_payment_service.Service.Clients.{
  SeedAccount, default_accounts, account_params, seed, operator_client, ensure_operator_client,
}

-- A client has an account.
abbrev pub HasAccount : String → World → String → Type 0
HasAccount client_id w id = any (is_account client_id id) w.accounts ≡ true

module _ (env : Env) (client_id : String) (a : SeedAccount) (w : World) where
  abbrev after : World
  after = (ClientRepo.create_journal_account env (account_params client_id a) w).1

  -- After the statement the account is there, whether it was there already or not.
  create_journal_account-HasAccount :
      env.fails w.tick ≡ false → has_client client_id w ≡ true → HasAccount client_id after a.id
  unfolding ClientRepo.create_journal_account Journal.create_journal_account wrapped
  create_journal_account-HasAccount up known =
      ground (arith, (eq_iff client_id client_id).1 refl, (eq_iff a.id a.id).1 refl)

  create_journal_account-other :
      (id : String) → HasAccount client_id w id → HasAccount client_id after id
  unfolding ClientRepo.create_journal_account Journal.create_journal_account wrapped
  create_journal_account-other id h = ground arith

  create_journal_account-clients : after.clients ≡ w.clients
  unfolding ClientRepo.create_journal_account Journal.create_journal_account wrapped
  create_journal_account-clients = ground arith

module _ (env : Env) (client_id : String) where
  seed-other :
      (accounts : List SeedAccount) (w : World) (id : String)
      → HasAccount client_id w id
      → HasAccount client_id (seed env client_id accounts w).1 id
  unfolding seed
  seed-other [] w id h = h
  seed-other (a ∷ accounts) w id h =
      seed-other accounts (after env client_id a w) id
        (create_journal_account-other env client_id a w id h)

  seed-HasAccount :
      (accounts : List SeedAccount) (w : World)
      → ((n : ℕ) → env.fails n ≡ false)
      → has_client client_id w ≡ true
      → All (λ a. HasAccount client_id (seed env client_id accounts w).1 a.id) accounts
  unfolding seed
  seed-HasAccount [] w up known = tt
  seed-HasAccount (a ∷ accounts) w up known = (
    seed-other accounts (after env client_id a w) a.id
        (create_journal_account-HasAccount env client_id a w (up w.tick) known),
    seed-HasAccount accounts (after env client_id a w) up (
        ap (any (λ (c : Client). str_eq c.id client_id))
          (create_journal_account-clients env client_id a w)
        ∙ known),
  )

  -- When no statement fails, seeding the default accounts of a client that is in the table leaves it with
  -- the three accounts that the entries of a payment name, whichever accounts it had before.
  pub seed-IsChart :
      (w : World)
      → ((n : ℕ) → env.fails n ≡ false)
      → has_client client_id w ≡ true
      → IsChart client_id (seed env client_id default_accounts w).1.accounts
  seed-IsChart w up known =
      let (till, (sales, (other, (cogs, (operations, rest))))) =
        seed-HasAccount default_accounts w up known in
      (till, sales, operations)

-- The operator client that is in the table already is returned, when its lookup does not fail, and only
-- the count of statements changes.
pub ensure_operator_client-existing :
    (env : Env) (key : List ℕ) (external_id name : String) (w : World) (c : Client)
    → is_empty external_id ≡ false
    → env.fails w.tick ≡ false
    → find (λ (d : Client). str_eq d.external_id external_id) w.clients ≡ some c
    → ensure_operator_client env key external_id name w ≡ (ok c, record w { tick = w.tick + 1 })
unfolding ensure_operator_client operator_client ◌>>=◌ ClientRepo.get_client_by_external_id
    Clients.get_client_by_external_id query
ensure_operator_client-existing env key external_id name w c named up found =
    simp (named, up, found)
