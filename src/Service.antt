-- ===== src/Service.antt =====
-- internal/service: the business logic.
pub mod Requests
pub mod Ledger
pub mod Settle
pub mod Initiate
pub mod Reconcile
pub mod Initiations
pub mod Clients
pub mod Paystack
pub mod Preserved
pub mod Steps
pub mod Reads
pub mod Reach
