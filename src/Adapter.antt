-- ===== src/Adapter.antt =====
-- The adapter of a run: the frames that `superviseHarnessAdapter` of
-- src/harness-runs/adapter-supervision.mjs consumes, and the deadline of
-- src/harness-runs/cancellation-escalation.mjs.
pub mod Consume
pub mod Consumed
pub mod Deadline
pub mod Armed
mod Examples
