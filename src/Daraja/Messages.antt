-- ===== src/Daraja/Messages.antt =====
-- The messages of internal/daraja (stk.go, b2c.go, b2b.go, transaction_status.go) and the interface
-- `DarajaClient` of internal/service/payment_service.go. A call over the network may answer in any
-- way: the client is a parameter, and its answer may depend on how many events came before.
use mkwanja_payment_service.Paystack.Messages.{InitializeTransactionRequest}
use mkwanja_payment_service.Prelude.{ℕ, String}
use mkwanja_payment_service.Prelude.Result.{Result}

pub record StkPushRequest : Type 0 where
  pub business_short_code : String
  pub password : String
  pub timestamp : String
  pub transaction_type : String
  pub amount : String
  pub party_a : String
  pub party_b : String
  pub phone_number : String
  pub callback_url : String
  pub account_reference : String
  pub transaction_desc : String

pub record StkPushResponse : Type 0 where
  pub merchant_request_id : String
  pub checkout_request_id : String
  pub response_code : String
  pub response_description : String
  pub customer_message : String

pub record B2cRequest : Type 0 where
  pub originator_conversation_id : String
  pub initiator_name : String
  pub security_credential : String
  pub command_id : String
  pub amount : String
  pub party_a : String
  pub party_b : String
  pub remarks : String
  pub queue_time_out_url : String
  pub result_url : String
  pub occasion : String

pub record B2cResponse : Type 0 where
  pub conversation_id : String
  pub originator_conversation_id : String
  pub response_code : String
  pub response_description : String

pub record B2bRequest : Type 0 where
  pub initiator : String
  pub security_credential : String
  pub command_id : String
  pub sender_identifier_type : String
  pub receiver_identifier_type : String
  pub amount : String
  pub party_a : String
  pub party_b : String
  pub account_reference : String
  pub remarks : String
  pub queue_time_out_url : String
  pub result_url : String

pub record B2bResponse : Type 0 where
  pub conversation_id : String
  pub originator_conversation_id : String
  pub response_code : String
  pub response_description : String

pub record TransactionStatusRequest : Type 0 where
  pub initiator : String
  pub security_credential : String
  pub command_id : String
  pub transaction_id : String
  pub party_a : String
  pub identifier_type : String
  pub result_url : String
  pub queue_time_out_url : String
  pub remarks : String
  pub occasion : String

pub record TransactionStatusResponse : Type 0 where
  pub response_code : String
  pub response_description : String
  pub merchant_request_id : String
  pub checkout_request_id : String
  pub result_code : String
  pub result_desc : String
  pub conversation_id : String
  pub originator_conversation_id : String
  pub receipt_no : String
  pub transaction_amount : String
  pub transaction_date : String
  pub transaction_status : String
  pub reason_type : String

pub record DarajaClient : Type 0 where
  pub initiate_stk_push : ℕ → StkPushRequest → Result StkPushResponse
  pub initiate_b2c : ℕ → B2cRequest → Result B2cResponse
  pub initiate_b2b : ℕ → B2bRequest → Result B2bResponse
  pub query_transaction_status : ℕ → TransactionStatusRequest → Result TransactionStatusResponse

-- What was handed to a provider.
pub data Sent : Type 0 where
  stk : StkPushRequest → Sent
  b2c : B2cRequest → Sent
  b2b : B2bRequest → Sent
  status : TransactionStatusRequest → Sent
  paystack : InitializeTransactionRequest → Sent
