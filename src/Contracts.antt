-- ===== src/Contracts.antt =====
-- contracts/jobman/v1alpha1: the documents that clients and agents send, and their validation.
pub mod Names
pub mod Paths
pub mod Sorting
pub mod Workloads
pub mod Json
pub mod Graphs
pub mod Requests
pub mod Executions
pub mod Offers
pub mod Observations
pub mod Events
mod Examples
