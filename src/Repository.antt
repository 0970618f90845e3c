-- ===== src/Repository.antt =====
-- internal/repository: the statements behind the interfaces that the services use. Each adds its
-- context to an error.
pub mod PaymentRepo
pub mod JournalRepo
pub mod ClientRepo
