-- ===== src/Service/Preserved/Tables.antt =====
-- The invariants of the tables `payments` and `journal`, kept by every statement that the services run.
use mkwanja_payment_service.Prelude.{⊤, String, List, arith}
use mkwanja_payment_service.Db.Models.{ClientCredential, Payment, JournalAccount, inbound, outbound}
use mkwanja_payment_service.Daraja.Messages.{Sent}
use mkwanja_payment_service.Db.World.{World, Env}
use mkwanja_payment_service.Db.Keeps.{Keeps}
use mkwanja_payment_service.Db.Payments.{
  CreatePaymentParams, CreatePaymentEventParams, insert_payment, update_payment,
  create_payment_event,
}
use mkwanja_payment_service.Db.Payments.Table.{
  IsTable, HasTable, insert_payment-HasTable, update_payment-HasTable,
}
use mkwanja_payment_service.Db.Journal.Balance.{IsBalanced}
use mkwanja_payment_service.Service.Preserved.{IsPreserved}
use mkwanja_payment_service.Service.Ledger.{write_inbound_entries, write_outbound_entries}
use mkwanja_payment_service.Service.Ledger.Payments.{
  Table, Table-IsTimeless, write_inbound_entries-Keeps, write_outbound_entries-Keeps,
}
use mkwanja_payment_service.Service.Ledger.Entries.{
  write_inbound_entries-IsBooked, write_outbound_entries-IsBooked, IsBooked-IsBalanced,
}

module _ (R : List Payment → List JournalAccount → List ClientCredential → List Sent → Type 0) where
  pub create_payment_event-Table :
      (env : Env) (e : CreatePaymentEventParams) → Keeps (Table R) (create_payment_event env e)
  unfolding create_payment_event
  create_payment_event-Table env e = record { at = λ w h. ground arith }

pub HasTable-IsPreserved : IsPreserved HasTable (λ r. ⊤)
HasTable-IsPreserved = record {
  timeless = Table-IsTimeless (λ ps accounts keys sent. IsTable ps);
  create = insert_payment-HasTable;
  update = update_payment-HasTable;
  event = create_payment_event-Table (λ ps accounts keys sent. IsTable ps);
  inbound = write_inbound_entries-Keeps (λ ps accounts keys sent. IsTable ps);
  outbound = write_outbound_entries-Keeps (λ ps accounts keys sent. IsTable ps);
  route = λ w key value h. h;
  request = λ w r allowed h. h;
  clients = λ w rows h. h;
  accounts = λ w rows h. h;
  credentials = λ w rows h. h;
  paystack_credentials = λ w rows h. h;
}

-- The journal balances for every client and every payment.
abbrev pub HasBalance : World → Type 0
HasBalance w = IsBalanced w.journal

create_payment_event-HasBalance :
    (env : Env) (e : CreatePaymentEventParams) → Keeps HasBalance (create_payment_event env e)
unfolding create_payment_event
create_payment_event-HasBalance env e = record { at = λ w h. ground arith }

insert_payment-HasBalance :
    (env : Env) (p : CreatePaymentParams) → Keeps HasBalance (insert_payment env p)
unfolding insert_payment
insert_payment-HasBalance env p = record { at = λ w h. ground arith }

update_payment-HasBalance :
    (id : String) (change : Payment → Payment) → Keeps HasBalance (update_payment id change)
unfolding update_payment
update_payment-HasBalance id change = record { at = λ w h. ground arith }

pub HasBalance-IsPreserved : IsPreserved HasBalance (λ r. ⊤)
HasBalance-IsPreserved = record {
  timeless = record { at = λ w n h. h };
  create = insert_payment-HasBalance;
  update = λ id change u. update_payment-HasBalance id change;
  event = create_payment_event-HasBalance;
  inbound = λ env p. record {
    at = λ w h.
        IsBooked-IsBalanced env p inbound w (write_inbound_entries env p w)
          (write_inbound_entries-IsBooked env p w) h;
  };
  outbound = λ env p. record {
    at = λ w h.
        IsBooked-IsBalanced env p outbound w (write_outbound_entries env p w)
          (write_outbound_entries-IsBooked env p w) h;
  };
  route = λ w key value h. h;
  request = λ w r allowed h. h;
  clients = λ w rows h. h;
  accounts = λ w rows h. h;
  credentials = λ w rows h. h;
  paystack_credentials = λ w rows h. h;
}
