-- ===== src/Launch.antt =====
-- src/harness-runs/operations/launch.mjs, by which a run comes to be.
pub mod Codes
pub mod Request
pub mod Preparation
pub mod Operation
pub mod Parameters
pub mod Form
pub mod Lease
pub mod Held
pub mod Accepted
pub mod Repeated
pub mod Lookup
mod FormTrials
mod Samples
mod Examples
