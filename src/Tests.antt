-- ===== src/Tests.antt =====
-- The theorems at concrete inputs, and runs of the model.
pub mod Data
pub mod CallbackData
mod Payments
mod Parts
mod Accounts
pub mod SiteData
mod Site
mod Transport
mod Made
mod Server
mod Paid
