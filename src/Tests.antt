-- ===== src/Tests.antt =====
-- Runs of the models on concrete inputs, and each theorem applied at one.
mod Data
mod Fees
mod Improving
mod Pools
mod Documents
mod Heights
mod Traces
mod Stored
mod Service
mod Paths
mod Power
mod Tools
mod Connections
mod Reachable
