-- ===== src/Queue.antt =====
-- internal/queue: the worker that settles payments from the callbacks of the provider.
pub mod Worker
pub mod Tasks
pub mod Routing
pub mod Settles
pub mod Push
