-- ===== src/Store/Examples.antt =====
-- Runs of the transactions on small tables, and the theorems at them.
mod Fixtures
mod Jobs
mod Streams
mod Groups
mod Actions
mod Targets
mod Sessions
