-- ===== src/Tests.antt =====
-- Concrete inputs, runs on them, and the theorems at them.
mod Scenario
mod Handlers
mod Nonces
mod Schemes
mod Payloads
mod Codecs
mod Calls
mod Heap
mod Histories
mod Ledgers
mod Assertions
mod Approvals
mod Executions
mod Enrollments
mod Client
mod Sessions
mod Signing
mod Examples
