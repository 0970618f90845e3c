-- ===== src/Daraja.antt =====
-- internal/daraja: the requests and answers of the M-PESA API, and the client as the services use it.
pub mod Messages
pub mod Client
pub mod Phone
