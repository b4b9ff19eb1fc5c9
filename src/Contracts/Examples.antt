-- ===== src/Contracts/Examples.antt =====
-- Documents, numbers and graphs that the contracts accept and refuse.
mod Values
mod Graphs
mod Fixtures
mod Requests
mod Agents
