-- ===== src/Wallet.antt =====
-- apps/api/app/services/wallet.py and commercial_terms.py: the tenants' wallets, the ledger and
-- the settlement logs. `Tables` has the rows, `Operations` the service methods; the others prove.
pub mod Tables
pub mod Operations
pub mod Effects
pub mod Ledger
pub mod Reconciliation
pub mod Calls
pub mod Safety
pub mod Split
mod Tests
