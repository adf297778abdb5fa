-- ===== src/Host/Lock.antt =====
-- src/private-state-lock.mjs, by which processes take turns at the Host's private state.
pub mod Turns
pub mod Exclusive
pub mod Abandoned
mod Trials
