-- ===== src/Domain.antt =====
-- internal/domain: the rules that do not touch the database.
pub mod Phone
pub mod Ledger
pub mod Entity
