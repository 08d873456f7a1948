-- ===== src/Billing.antt =====
-- src/modules/billing: the subscription operations of the billing service with Razorpay.
pub mod Records
pub mod World
pub mod Rows
pub mod Status
pub mod Upsert
pub mod Provider
pub mod Replacement
pub mod Worker
mod Keeps
mod Present
mod Tests
