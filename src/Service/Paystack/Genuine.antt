-- ===== src/Service/Paystack/Genuine.antt =====
-- What a call of `HandleWebhook` (internal/service/paystack_service.go) does to the database.
use mkwanja_payment_service.Prelude.{
  String, ◌≡◌, ap, true, ℕ, List, find, some, str_eq, sym, refl, ◌∙◌, ◌<>◌, is_empty, ◌⊎◌, inl, inr,
  Bool-cases, arith, eq_iff,
}
use mkwanja_payment_service.Prelude.Int.{eq_ℤ}
use mkwanja_payment_service.Prelude.Result.{ok, wrap_err}
use mkwanja_payment_service.Crypto.{decrypt}
use mkwanja_payment_service.Daraja.Messages.{Sent}
use mkwanja_payment_service.Paystack.Messages.{WebhookEvent, verify_webhook_signature}
use mkwanja_payment_service.Db.Models.{Payment, ClientPaystackCredential}
use mkwanja_payment_service.Db.World.{World, Env}
use mkwanja_payment_service.Db.Action.{Action, wrapped, query}
use mkwanja_payment_service.Db.Payments
use mkwanja_payment_service.Db.Clients
use mkwanja_payment_service.Db.Payments.{has_id}
use mkwanja_payment_service.Db.Clients.{is_active_paystack_for}
use mkwanja_payment_service.Db.Keeps.{
  Keeps, IsTimeless, Keeps-if, Keeps-raise, Keeps-wrapped, Keeps-query, Keeps-know, Keeps-check,
  keeps_rules,
}
use mkwanja_payment_service.Service.Initiate.Replay.{IsIdle}
use mkwanja_payment_service.Repository.PaymentRepo
use mkwanja_payment_service.Repository.ClientRepo
use mkwanja_payment_service.Service.Preserved.{
  IsPreserved, get_payment_by_id-Keeps, get_active_paystack_credentials-Keeps,
}
use mkwanja_payment_service.Service.Steps.{complete-Keeps, fail-Keeps}
use mkwanja_payment_service.Service.Paystack.{PaystackService}
use mkwanja_payment_service.Service.Paystack.Webhook.{
  settle_event, verified, follow_event, handle_webhook,
}
use mkwanja_payment_service.Service.Initiate.Shape.{wrapped-ok}

module _ {P : World → Type 0} {Allowed : Sent → Type 0} (inv : IsPreserved P Allowed) (env : Env)
    (s : PaystackService) where
  settle_event-Keeps : (event : WebhookEvent) (p : Payment) → Keeps P (settle_event env s event p)
  unfolding settle_event
  settle_event-Keeps event p =
      search (keeps_rules, complete-Keeps inv env, fail-Keeps inv env) depth 7

  pub handle_webhook-Keeps :
      (raw_body : List ℕ) (signature : String) → Keeps P (handle_webhook env s raw_body signature)
  unfolding handle_webhook follow_event verified PaymentRepo.get_payment_by_id
      ClientRepo.get_active_paystack_credentials
  handle_webhook-Keeps raw_body signature =
      search
        (
          keeps_rules,
          get_payment_by_id-Keeps inv env,
          get_active_paystack_credentials-Keeps inv env,
          settle_event-Keeps,
        )
        depth 9

-- The rows that the two lookups answer with.
lookup-payment :
    (env : Env) (context id : String) (w : World) (p : Payment)
    → (wrapped context (PaymentRepo.get_payment_by_id env id) w).0 ≡ ok p
    → find (has_id id) w.payments ≡ some p
unfolding PaymentRepo.get_payment_by_id Payments.get_payment_by_id query wrapped
lookup-payment env context id w p h = ground (arith, h)

lookup-creds :
    (env : Env) (context id : String) (w : World) (c : ClientPaystackCredential)
    → (wrapped context (ClientRepo.get_active_paystack_credentials env id) w).0 ≡ ok c
    → find (is_active_paystack_for id) w.paystack_credentials ≡ some c
unfolding ClientRepo.get_active_paystack_credentials Clients.get_active_paystack_credentials query
    wrapped
lookup-creds env context id w c h = ground (arith, h)

-- What must hold of the database and of a webhook's body and signature before the webhook may act: the
-- body is an event about a payment of the table, the signature is right under the secret key that the
-- payment's client has now, and a success reports the amount of the payment.
pub record IsGenuine (env : Env) (s : PaystackService) (raw_body : List ℕ) (signature : String)
    (w : World) : Type 0 where
  pub event : WebhookEvent
  pub payment : Payment
  pub creds : ClientPaystackCredential
  pub secret_key : String
  pub parses : s.parse raw_body ≡ ok event
  pub found : find (has_id event.reference) w.payments ≡ some payment
  pub active : find (is_active_paystack_for payment.client_id) w.paystack_credentials ≡ some creds
  pub opens : decrypt env.crypto s.encrypt_key creds.secret_key_encrypted ≡ ok secret_key
  pub signed : verify_webhook_signature s.signing secret_key raw_body signature ≡ true
  pub agrees :
      ((event.event ≡ "charge.success") × (eq_ℤ event.amount payment.amount_cents ≡ true))
      ⊎ (event.event ≡ "charge.failed")

module _ (env : Env) (s : PaystackService) (raw_body : List ℕ) (signature : String)
    (w : World) where
  -- Nothing happened yet, or the webhook may act.
  abbrev IsLawful : World → Type 0
  IsLawful w' = IsIdle w w' ⊎ IsGenuine env s raw_body signature w

  IsLawful-IsTimeless : IsTimeless IsLawful
  IsLawful-IsTimeless = record {
    at = λ w' n h. elim h [
      | inl idle ↦ inl (ap (λ (v : World). record v { tick = n }) idle)
      | inr genuine ↦ inr genuine
    ];
  }

  lawful : {A : Type 0} (m : Action A) → IsGenuine env s raw_body signature w → Keeps IsLawful m
  lawful m g = record { at = λ w' h. inr g }

  module _ (event : WebhookEvent) (p : Payment) (creds : ClientPaystackCredential) (secret : String)
      (parses : s.parse raw_body ≡ ok event)
      (found : find (has_id event.reference) w.payments ≡ some p)
      (active : find (is_active_paystack_for p.client_id) w.paystack_credentials ≡ some creds)
      (opens : decrypt env.crypto s.encrypt_key creds.secret_key_encrypted ≡ ok secret) where
    settle_event-IsLawful :
        verify_webhook_signature s.signing secret raw_body signature ≡ true
        → Keeps IsLawful (settle_event env s event p)
    unfolding settle_event
    settle_event-IsLawful signed = elim (Bool-cases (str_eq event.event "charge.success")) [
      | inl success ↦ elim (Bool-cases (eq_ℤ event.amount p.amount_cents)) [
        | inl same ↦ lawful _ (genuine (inl ((eq_iff _ _).0 success, same)))
        | inr differs ↦ rw (success, differs) (search keeps_rules)
      ]
      | inr other ↦ elim (Bool-cases (str_eq event.event "charge.failed")) [
        | inl failure ↦ lawful _ (genuine (inr ((eq_iff _ _).0 failure)))
        | inr unknown ↦ rw (other, unknown) (search keeps_rules)
      ]
    ]
      where
        genuine :
            ((event.event ≡ "charge.success") × (eq_ℤ event.amount p.amount_cents ≡ true))
              ⊎ (event.event ≡ "charge.failed")
            → IsGenuine env s raw_body signature w
        genuine agrees = record {
          event = event;
          payment = p;
          creds = creds;
          secret_key = secret;
          parses = parses;
          found = found;
          active = active;
          opens = opens;
          signed = signed;
          agrees = agrees;
        }

    verified-IsLawful : Keeps IsLawful (verified env s raw_body signature event p secret)
    unfolding verified
    verified-IsLawful =
        elim (Bool-cases (verify_webhook_signature s.signing secret raw_body signature)) [
          | inl signed ↦ rw signed (settle_event-IsLawful signed)
          | inr unsigned ↦ rw unsigned (search keeps_rules)
        ]

  event_payment-Keeps :
      (context id : String)
      → Keeps IsLawful (wrapped context (PaymentRepo.get_payment_by_id env id))
  unfolding PaymentRepo.get_payment_by_id Payments.get_payment_by_id
  event_payment-Keeps context id =
      Keeps-wrapped _ _ (Keeps-wrapped _ _ (Keeps-query env _ IsLawful-IsTimeless))

  event_creds-Keeps :
      (context id : String)
      → Keeps IsLawful (wrapped context (ClientRepo.get_active_paystack_credentials env id))
  unfolding ClientRepo.get_active_paystack_credentials Clients.get_active_paystack_credentials
  event_creds-Keeps context id =
      Keeps-wrapped _ _ (Keeps-wrapped _ _ (Keeps-query env _ IsLawful-IsTimeless))

  follow_event-IsLawful :
      (event : WebhookEvent)
      → s.parse raw_body ≡ ok event
      → Keeps IsLawful (follow_event env s raw_body signature event)
  unfolding follow_event
  follow_event-IsLawful event parses =
      Keeps-know
        (wrapped ("lookup payment " <> event.reference)
          (PaymentRepo.get_payment_by_id env event.reference))
        _ (event_payment-Keeps _ event.reference)
        (λ w' h p read. elim h [
          | inr genuine ↦ lawful _ genuine
          | inl idle ↦
              Keeps-know
                (wrapped "get paystack credentials"
                  (ClientRepo.get_active_paystack_credentials env p.client_id))
                _ (event_creds-Keeps _ p.client_id)
                (λ w'' h' creds read'. elim h' [
                  | inr genuine ↦ lawful _ genuine
                  | inl idle' ↦
                      Keeps-check
                        (wrap_err "decrypt secret key"
                          (decrypt env.crypto s.encrypt_key creds.secret_key_encrypted))
                        _
                        (λ secret opens.
                          verified-IsLawful event p creds secret parses
                            (sym (ap (λ (v : World). find (has_id event.reference) v.payments) idle)
                              ∙ lookup-payment env _ event.reference w' p read)
                            (sym (
                                ap
                                  (λ (v : World).
                                    find (is_active_paystack_for p.client_id)
                                      v.paystack_credentials)
                                  idle')
                              ∙ lookup-creds env _ p.client_id w'' creds read')
                            (wrapped-ok _ _ _ opens))
                ])
        ])

  -- A webhook of Paystack changes nothing but the count of statements, unless its body is an event about
  -- a payment of the table, its signature is right under the active key of the payment's client, and the
  -- event is a failure or a success with the amount of the payment.
  pub handle_webhook-IsGenuine :
      IsIdle w (handle_webhook env s raw_body signature w).1 ⊎ IsGenuine env s raw_body signature w
  unfolding handle_webhook
  handle_webhook-IsGenuine =
      (Keeps-check (wrap_err "parse webhook" (s.parse raw_body)) _ (λ event parses.
          Keeps-if (is_empty event.reference) _ _ (Keeps-raise _)
            (follow_event-IsLawful event (wrapped-ok _ _ _ parses)))).at
        w (inl refl)
