-- ===== src/Tests/Payments.antt =====
-- The theorems about the payment service, at concrete inputs.
use mkwanja_payment_service.Prelude.{◌+◌, ◌≡◌, refl, false, some, find, ◌⊎◌, length}
use mkwanja_payment_service.Prelude.Int.{pos}
use mkwanja_payment_service.Prelude.Result.{ok}
use mkwanja_payment_service.Db.Models.{Payment, inbound, failed}
use mkwanja_payment_service.Db.World.{World}
use mkwanja_payment_service.Db.Payments.{has_id}
use mkwanja_payment_service.Db.Payments.Table.{IsTable}
use mkwanja_payment_service.Db.Journal.{balances_of}
use mkwanja_payment_service.Db.Journal.Balance.{IsBalanced, sum_column}
use mkwanja_payment_service.Service.Ledger.Entries.{booked}
use mkwanja_payment_service.Service.Settle.{complete_payment, fail_payment}
use mkwanja_payment_service.Service.Settle.Outcome.{done, evented}
use mkwanja_payment_service.Service.Settle.Books
use mkwanja_payment_service.Service.Settle.Ends
use mkwanja_payment_service.Service.Settle.Ends.{IsRefused, IsSame, IsCompleted, IsApart, IsWritten}
use mkwanja_payment_service.Service.Settle.Twice
use mkwanja_payment_service.Service.Initiate.StkPush.{initiate_stk_push}
use mkwanja_payment_service.Service.Initiate.B2c.{initiate_b2c}
use mkwanja_payment_service.Service.Initiate.Replay.{IsIdle}
use mkwanja_payment_service.Service.Reach.{
  Reach, Step, Reach-IsTable, Reach-IsBalanced, Reach-trial_balance,
}
use mkwanja_payment_service.Service.Reach.Once
use mkwanja_payment_service.Service.Reach.Backed
use mkwanja_payment_service.Service.Reach.Backed.{IsBacked}
use mkwanja_payment_service.Db.Action.{◌>>=◌, query}
use mkwanja_payment_service.Db.Payments
use mkwanja_payment_service.Db.Clients
use mkwanja_payment_service.Repository.PaymentRepo
use mkwanja_payment_service.Repository.ClientRepo
use mkwanja_payment_service.Crypto.{decrypt}
use mkwanja_payment_service.Domain.Phone.{normalise_phone}
use mkwanja_payment_service.Service.Requests.{validate_stk_push, validate_b2c}
use mkwanja_payment_service.Service.Initiate.Common.{
  or_fail, daraja_client, call, store_route, security_credential,
}
use mkwanja_payment_service.Service.Initiations.{Initiation, after}
use mkwanja_payment_service.Service.Initiations.Errors
use mkwanja_payment_service.Service.Initiations.Errors.{IsClean, returns}
use mkwanja_payment_service.Tests.Data.{calm, fresh, busy, first_payment, stk, b2c, service}

-- A push that goes through leaves a pending row and one request.
initiates : length (initiate_stk_push calm service stk fresh).1.sent ≡ 1
unfolding initiate_stk_push ◌>>=◌ validate_stk_push normalise_phone query
    PaymentRepo.get_payment_by_idempotency_key Payments.get_payment_by_idempotency_key
    PaymentRepo.create_payment Payments.create_payment or_fail ClientRepo.get_active_credentials
    Clients.get_active_credentials daraja_client decrypt call store_route
    PaymentRepo.update_provider_request_id Payments.update_provider_request_id
initiates = refl

sent_once_example :
    ((after calm service (Initiation.stk stk) fresh).sent ≡ fresh.sent)
    ⊎ IsIdle
        (after calm service (Initiation.stk stk) fresh)
        (after calm service (Initiation.b2c b2c) (after calm service (Initiation.stk stk) fresh))
sent_once_example =
    Once.sent_once calm calm service service (Initiation.stk stk) (Initiation.b2c b2c) fresh
      (after calm service (Initiation.stk stk) fresh) refl refl Reach.here

-- A push is initiated and the payment that it made is completed.
abbrev pushed_and_paid : World
pushed_and_paid =
    (complete_payment calm "p2" "RCP1" "TX1" (initiate_stk_push calm service stk fresh).1).1

pushed_and_paid-Reach : Reach fresh pushed_and_paid
pushed_and_paid-Reach =
    Reach.next calm service
      (Reach.next calm service Reach.here (Step.initiate (Initiation.stk stk)))
      (Step.complete "p2" "RCP1" "TX1")

Reach-IsTable_example : IsTable pushed_and_paid.payments
Reach-IsTable_example = Reach-IsTable tt pushed_and_paid-Reach

Reach-IsBalanced_example : IsBalanced pushed_and_paid.journal
Reach-IsBalanced_example = Reach-IsBalanced (λ q. refl) pushed_and_paid-Reach

Reach-IsBacked_example : IsBacked pushed_and_paid
Reach-IsBacked_example = Backed.Reach-IsBacked tt pushed_and_paid-Reach

Reach-trial_balance_example :
    sum_column (λ b. b.net_cents) (balances_of "c1" pushed_and_paid.journal) ≡ pos 0
Reach-trial_balance_example = Reach-trial_balance "c1" (λ q. refl) pushed_and_paid-Reach

complete_payment-ends_example :
    let (r, w') = complete_payment calm "p1" "RCP1" "TX1" busy in
    IsRefused calm busy "p1" (r, w')
    ⊎ ((r ≡ ok tt)
        × ((p : Payment) × (q : Payment) × (find (has_id "p1") busy.payments ≡ some p)
            × (find (has_id "p1") w'.payments ≡ some q)
            × IsSame p q
            × IsCompleted "RCP1" "TX1" q
            × IsApart "p1" busy.payments w'.payments
            × IsWritten calm busy "p1" "RCP1" "TX1" p q w'))
complete_payment-ends_example = Ends.complete_payment-ends calm busy "p1" "RCP1" "TX1"

complete_payment-books_example :
    ((complete_payment calm "p1" "RCP1" "TX1" busy).0 ≡ ok tt)
    × ((complete_payment calm "p1" "RCP1" "TX1" busy).1.journal
        ≡ booked calm
            (done calm busy "p1" "RCP1" "TX1" first_payment)
            inbound
            (evented calm busy "p1" "RCP1" "TX1" first_payment))
complete_payment-books_example =
    Books.complete_payment-books calm busy "p1" "RCP1" "TX1" first_payment refl (λ n. refl) refl
      (refl, refl, refl)

complete_payment-twice_example :
    length
      (complete_payment calm "p1" "RCP2" "TX2"
        (complete_payment calm "p1" "RCP1" "TX1" busy).1).1.journal
    ≡ 4 + length busy.journal
complete_payment-twice_example =
    Twice.complete_payment-twice calm busy "p1" "RCP1" "TX1" "RCP2" "TX2" first_payment refl
      (λ n. refl) refl (refl, refl, refl)

fail_payment-ends_example :
    let (r, w') = fail_payment calm "p1" "cancelled" busy in
    IsRefused calm busy "p1" (r, w')
    ⊎ ((r ≡ ok tt)
        × ((p : Payment) × (q : Payment) × (find (has_id "p1") busy.payments ≡ some p)
            × (find (has_id "p1") w'.payments ≡ some q)
            × IsSame p q
            × (q.status ≡ failed)
            × (q.provider_receipt ≡ p.provider_receipt)
            × IsApart "p1" busy.payments w'.payments
            × (w'.journal ≡ busy.journal)))
fail_payment-ends_example = Ends.fail_payment-ends calm busy "p1" "cancelled"

-- The client's credentials have no initiator, so the call fails after its row was made.
b2c_refused : returns calm service (Initiation.b2c b2c) fresh ≡ false
unfolding initiate_b2c ◌>>=◌ validate_b2c normalise_phone query
    PaymentRepo.get_payment_by_idempotency_key Payments.get_payment_by_idempotency_key
    PaymentRepo.create_payment Payments.create_payment or_fail ClientRepo.get_active_credentials
    Clients.get_active_credentials daraja_client decrypt call security_credential
    PaymentRepo.update_provider_request_id Payments.update_provider_request_id
b2c_refused = refl

error-IsClean_example : IsClean fresh.payments (after calm service (Initiation.b2c b2c) fresh)
error-IsClean_example =
    Errors.error-IsClean calm service (Initiation.b2c b2c) fresh (λ n. refl) b2c_refused
