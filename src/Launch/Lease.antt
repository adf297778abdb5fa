-- ===== src/Launch/Lease.antt =====
-- The leases of provider preparations in src/harness-runs/operations/launch.mjs. Launches that use one
-- project share a preparation; it is cleaned up when no launch holds it.
pub mod Holders
pub mod Turns
pub mod Counted
mod Trials
