-- ===== src/Ledger.antt =====
-- The program as the ledger sees it: accounts that many transactions change, one after the other.
pub mod Rules
pub mod Enrolled
pub mod Counters
pub mod Changes
pub mod Handlers
pub mod Creation
pub mod Parsed
pub mod Founding
pub mod Initialized
pub mod Founded
pub mod History
pub mod Sessions
pub mod Assertions
pub mod Evolution
pub mod Vacant
pub mod Provenance
pub mod Origin
