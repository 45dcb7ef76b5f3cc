-- ===== src/Portal.antt =====
-- apps/api/app/services/captive_portal.py and the services below it: the portal of a hotspot.
pub mod Tables
pub mod Sessions
pub mod RateLimit
pub mod Payment
pub mod Activation
pub mod PublicView
pub mod Attempts
pub mod Grants
pub mod System
pub mod Access
pub mod Duplicates
pub mod Screen
pub mod Quota
mod Samples
mod Tests
