-- ===== src/Payouts.antt =====
-- apps/api/app/services/payouts.py and two_factor.py, with the Selcom result codes of
-- apps/api/app/integrations/selcom_business: the life of a withdrawal.
pub mod Tables
pub mod Provider
pub mod TwoFactor
pub mod Transitions
pub mod Submission
pub mod Service
pub mod Review
pub mod Contact
pub mod Moves
pub mod Refinement
pub mod Guards
pub mod Methods
pub mod Funds
pub mod Backing
pub mod Requests
pub mod History
pub mod Once
pub mod System
pub mod Answers
pub mod Codes
pub mod Limits
pub mod Gates
pub mod Liveness
pub mod Reachable
pub mod Transfers
pub mod Twice
pub mod Committed
pub mod Samples
mod Tests
mod MethodTests
mod ReviewTests
mod TwiceTests
