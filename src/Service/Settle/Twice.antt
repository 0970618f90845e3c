-- ===== src/Service/Settle/Twice.antt =====
-- `CompletePayment` of internal/service/payment_service.go, called twice for one payment.
use mkwanja_payment_service.Prelude.{
  ℕ, ◌+◌, String, ◌≡◌, ◌∙◌, ap, true, false, List, [], ◌∷◌, some, find, inl, inr, arith, length,
  Bool-cases,
}
use mkwanja_payment_service.Prelude.Int.{pos, ltb_ℤ}
use mkwanja_payment_service.Db.Models.{Payment, PaymentDirection, inbound, outbound, null_string}
use mkwanja_payment_service.Db.World.{World, Env}
use mkwanja_payment_service.Db.Payments.{has_id, set_where}
use mkwanja_payment_service.Db.Payments.Table.{IsUpdate, as_completed-IsUpdate}
use mkwanja_payment_service.Service.Ledger.Payments.{
  write_inbound_entries-Keeps, write_outbound_entries-Keeps,
}
use mkwanja_payment_service.Service.Settle.{write_entries, complete_payment}
use mkwanja_payment_service.Service.Settle.Outcome.{
  done, complete_payment-runs, complete_payment-found, event-journal,
}
use mkwanja_payment_service.Service.Settle.Books.{IsChart, event-accounts, complete_payment-books}

pub find-set_where :
    (change : Payment → Payment)
    → IsUpdate change
    → (id : String) (ps : List Payment) (p : Payment) → find (has_id id) ps ≡ some p
    → find (has_id id) (set_where id change ps) ≡ some (change p)
find-set_where change u id [] p found = ground arith
find-set_where change u id (q ∷ ps) p found = elim (Bool-cases (has_id id q)) [
  | inl here ↦
      let same : has_id id (change q) ≡ true = rw (u.id q) here in ground (arith, here, same, found)
  | inr away ↦ ground (arith, away, find-set_where change u id ps p)
]

write_entries-IsChart :
    (env : Env) (c : String) (p : Payment) (d : PaymentDirection) (w : World)
    → IsChart c w.accounts
    → IsChart c (write_entries env p d w).1.accounts
unfolding write_entries
write_entries-IsChart env c p inbound w h =
    (write_inbound_entries-Keeps (λ ps accounts keys sent. IsChart c accounts) env p).at w h
write_entries-IsChart env c p outbound w h =
    (write_outbound_entries-Keeps (λ ps accounts keys sent. IsChart c accounts) env p).at w h

module _ (env : Env) (w : World) (id receipt tx : String) (p : Payment) where
  complete_payment-length :
      find (has_id id) w.payments ≡ some p
      → ((n : ℕ) → env.fails n ≡ false)
      → ltb_ℤ (pos 0) p.amount_cents ≡ true
      → IsChart p.client_id w.accounts
      → length (complete_payment env id receipt tx w).1.journal ≡ 2 + length w.journal
  complete_payment-length found up amount accounts =
      rw ((complete_payment-books env w id receipt tx p found up amount accounts).1)
        (omega (arith, ap length (event-journal env w id receipt tx p)))

  complete_payment-IsChart :
      find (has_id id) w.payments ≡ some p
      → ((n : ℕ) → env.fails n ≡ false)
      → (c : String) → IsChart c w.accounts
      → IsChart c (complete_payment env id receipt tx w).1.accounts
  complete_payment-IsChart found up c accounts =
      rw (complete_payment-runs env w id receipt tx p found (up w.tick))
        (write_entries-IsChart env c _ _ _ (event-accounts env w id receipt tx p c accounts))

  pub complete_payment-row :
      find (has_id id) w.payments ≡ some p
      → ((n : ℕ) → env.fails n ≡ false)
      → find (has_id id) (complete_payment env id receipt tx w).1.payments
        ≡ some (done env w id receipt tx p)
  complete_payment-row found up =
      ap (find (has_id id)) (complete_payment-found env w id receipt tx p found (up w.tick)).1
      ∙ find-set_where _
          (as_completed-IsUpdate (env.now (w.tick + 1)) (null_string receipt) (null_string tx)) id
          w.payments p found

-- When no statement fails, the amount is positive and the client has the standard accounts, two
-- completions of one payment leave four entries more in the journal.
pub complete_payment-twice :
    (env : Env) (w : World) (id receipt tx receipt' tx' : String) (p : Payment)
    → find (has_id id) w.payments ≡ some p
    → ((n : ℕ) → env.fails n ≡ false)
    → ltb_ℤ (pos 0) p.amount_cents ≡ true
    → IsChart p.client_id w.accounts
    → let (r, w') = complete_payment env id receipt tx w in
      length (complete_payment env id receipt' tx' w').1.journal ≡ 4 + length w.journal
complete_payment-twice env w id receipt tx receipt' tx' p found up amount accounts =
    let w' = (complete_payment env id receipt tx w).1 in
    let q = done env w id receipt tx p in
    let row = complete_payment-row env w id receipt tx p found up in
    let chart = complete_payment-IsChart env w id receipt tx p found up p.client_id accounts in
    omega (
      arith,
      complete_payment-length env w id receipt tx p found up amount accounts,
      complete_payment-length env w' id receipt' tx' q row up amount chart,
    )
