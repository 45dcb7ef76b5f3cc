-- ===== src/Collections.antt =====
-- apps/api/app/services/selcom_payment_provider.py and collections.py: payments by mobile money.
pub mod Tables
pub mod Status
pub mod Provider
pub mod Initiation
pub mod Changes
pub mod Credits
pub mod Rows
pub mod Effects
pub mod Dispatch
pub mod Verified
mod Tests
