-- ===== src/Store.antt =====
-- internal/store/postgres: the rows that the store keeps and the transactions over them.
pub mod Rows
pub mod Acceptance
pub mod Artifacts
pub mod EventChecks
pub mod Events
pub mod LogKeys
pub mod Logs
pub mod Consistency
pub mod Cancellation
pub mod Idempotency
pub mod Database
pub mod Graphs
pub mod Collections
pub mod Coordinator
pub mod Transactions
pub mod Actions
pub mod Targets
pub mod Sessions
pub mod Histories
mod Examples
