-- ===== src/Core.antt =====
-- What the services share: apps/api/app/core (errors, enums, money) as modules of their own.
pub mod Errors
pub mod Enums
pub mod Money
