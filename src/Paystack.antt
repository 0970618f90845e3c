-- ===== src/Paystack.antt =====
-- internal/paystack: the messages of the Paystack client, and the signature of a webhook.
pub mod Messages
pub mod Client
