-- ===== src/Db.antt =====
-- The consumer's database: its rows, the statements that sqlc generates for it
-- (internal/db/generated) and the constraints of its migrations (internal/db/migrations/consumer).
pub mod Models
pub mod World
pub mod Action
pub mod Keeps
pub mod Rows
pub mod Payments
pub mod Journal
pub mod Clients
