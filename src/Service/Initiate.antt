-- ===== src/Service/Initiate.antt =====
-- internal/service/payment_service.go: `InitiateSTKPush`, `InitiateB2C` and `InitiateB2B`. Each is
-- three steps: the checks and the replay of a known key, the row of the payment, and the request to
-- the provider. Logging is left out.
pub mod Common
pub mod StkPush
pub mod B2c
pub mod B2b
pub mod Shape
pub mod Replay
pub mod Routed
pub mod Amount
pub mod Asks
pub mod Failed
pub mod Made
