-- ===== src/Billing.antt =====
-- apps/api/app/services/subscriptions.py and vouchers.py: what a customer is given, and for what.
pub mod Tables
pub mod Subscriptions
pub mod Vouchers
pub mod Counting
pub mod Generation
pub mod Redemption
mod Tests
