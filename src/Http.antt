-- ===== src/Http.antt =====
-- internal/handler, internal/middleware and internal/router: the service over HTTP.
pub mod Messages
pub mod Reply
pub mod Site
pub mod Payments
pub mod Clients
pub mod Ledger
pub mod Paystack
pub mod Webhooks
pub mod Router
pub mod Pages
pub mod Operator
