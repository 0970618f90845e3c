-- ===== src/Service/Preserved/Backs.antt =====
-- The requests on record and the rows of payments that they ask for, as an invariant of the statements that
-- the services run.
use mkwanja_payment_service.Prelude.{
  String, Bool, true, false, ◌&&◌, ◌||◌, ◌≡◌, refl, ◌*◌, List, [], ◌∷◌, Option, none, some, All,
  any, find, str_eq, inl, inr, arith, Option-cases,
}
use mkwanja_payment_service.Prelude.Int.{ℤ, pos, eq_ℤ}
use mkwanja_payment_service.Prelude.Decimal.Value.{value}
use mkwanja_payment_service.Daraja.Messages.{Sent}
use mkwanja_payment_service.Db.Models.{ClientCredential, Payment, PaymentType, JournalAccount}
use mkwanja_payment_service.Db.World.{Env}
use mkwanja_payment_service.Db.Keeps.{Keeps}
use mkwanja_payment_service.Db.Payments.{
  CreatePaymentParams, has_id, insert_payment, update_payment, new_payment, set_where,
}
use mkwanja_payment_service.Db.Payments.Table.{IsUpdate, any-set_where}
use mkwanja_payment_service.Service.Preserved.{IsPreserved}
use mkwanja_payment_service.Service.Preserved.Tables.{create_payment_event-Table}
use mkwanja_payment_service.Service.Ledger.Payments.{
  Table, Table-IsTimeless, write_inbound_entries-Keeps, write_outbound_entries-Keeps,
}

-- Whether a text of shillings is worth the cents.
abbrev pub is_worth : String → ℤ → Bool
is_worth shillings cents = eq_ℤ (pos (value shillings * 100)) cents

abbrev is_text : Option String → String → Bool
is_text none t = false
is_text (some s) t = str_eq s t

-- Whether a request asks for the payment that a row of this type, amount, phone and receiver stands for.
abbrev pub asks_for : Sent → PaymentType → ℤ → Option String → Option String → Bool
asks_for (Sent.stk r) PaymentType.stk_push cents phone receiver =
    is_worth r.amount cents && is_text phone r.phone_number && is_text phone r.party_a
asks_for (Sent.b2c r) PaymentType.b2c cents phone receiver =
    is_worth r.amount cents && is_text phone r.party_b
asks_for (Sent.b2b r) PaymentType.b2b cents phone receiver =
    is_worth r.amount cents && is_text receiver r.party_b
asks_for (Sent.paystack r) PaymentType.paystack_charge cents phone receiver = eq_ℤ r.amount cents
asks_for r type cents phone receiver = false

abbrev pub is_row_of : Sent → Payment → Bool
is_row_of r p = asks_for r p.payment_type p.amount_cents p.phone_number p.receiver_shortcode

-- A question about an earlier payment moves no money.
abbrev pub is_query : Sent → Bool
is_query (Sent.status r) = true
is_query r = false

abbrev pub is_backed : List Payment → Sent → Bool
is_backed ps r = is_query r || any (is_row_of r) ps

pub All-change :
    (ps qs : List Payment) (sent : List Sent)
    → ((r : Sent) → is_backed ps r ≡ true → is_backed qs r ≡ true)
    → All (λ r. is_backed ps r ≡ true) sent
    → All (λ r. is_backed qs r ≡ true) sent
All-change ps qs [] f hs = tt
All-change ps qs (r ∷ rs) f (h, hs) = (f r h, All-change ps qs rs f hs)

-- Every request on record is backed, and so would be those that are allowed.
module _ (Allowed : Sent → Type 0) where
  abbrev pub Backs : List Payment → List JournalAccount → List ClientCredential → List Sent → Type 0
  Backs ps accounts keys sent =
      All (λ r. is_backed ps r ≡ true) sent × ((r : Sent) → Allowed r → is_backed ps r ≡ true)

  Backs-change :
      (ps qs : List Payment) (accounts : List JournalAccount) (keys : List ClientCredential)
      (sent : List Sent)
      → ((r : Sent) → is_backed ps r ≡ true → is_backed qs r ≡ true)
      → Backs ps accounts keys sent
      → Backs qs accounts keys sent
  Backs-change ps qs accounts keys sent f (hs, allowed) =
      (All-change ps qs sent f hs, λ r a. f r (allowed r a))

  insert_payment-Backs :
      (env : Env) (p : CreatePaymentParams) → Keeps (Table Backs) (insert_payment env p)
  unfolding insert_payment
  insert_payment-Backs env p = record {
    at = λ w h.
        let added =
          Backs-change w.payments (new_payment env p w ∷ w.payments) w.accounts w.credentials w.sent
            (λ r backed. ground (arith, backed)) h in
        ground (arith, added);
  }

  set_where-backs :
      (id : String) (change : Payment → Payment)
      → IsUpdate change
      → (ps : List Payment) (r : Sent) → is_backed ps r ≡ true
      → is_backed (set_where id change ps) r ≡ true
  set_where-backs id change u ps r backed =
      rw
        (any-set_where change u (is_row_of r) id ps
          (λ p. rw (u.type p, u.amount p, u.phone p, u.receiver p) refl))
        backed

  update_payment-Backs :
      (id : String) (change : Payment → Payment)
      → IsUpdate change
      → Keeps (Table Backs) (update_payment id change)
  unfolding update_payment
  update_payment-Backs id change u = record {
    at = λ w h. elim (Option-cases (find (has_id id) w.payments)) [
      | inl missing ↦ rw (missing, update_payment) h
      | inr (p, found) ↦
          rw (found, update_payment)
            (Backs-change w.payments (set_where id change w.payments) w.accounts w.credentials
              w.sent (set_where-backs id change u w.payments) h)
    ];
  }

  pub Backs-IsPreserved : IsPreserved (Table Backs) Allowed
  Backs-IsPreserved = record {
    timeless = Table-IsTimeless Backs;
    create = insert_payment-Backs;
    update = update_payment-Backs;
    event = create_payment_event-Table Backs;
    inbound = write_inbound_entries-Keeps Backs;
    outbound = write_outbound_entries-Keeps Backs;
    route = λ w key value h. h;
    request = λ w r allowed (hs, all). ((all r allowed, hs), all);
    clients = λ w rows h. h;
    accounts = λ w rows h. h;
    credentials = λ w rows h. h;
    paystack_credentials = λ w rows h. h;
  }
