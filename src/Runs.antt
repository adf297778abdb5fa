-- ===== src/Runs.antt =====
-- Harness runs: src/harness-runs. What `harness-runs.json` retains, and the operations on it, each
-- of which the source makes under the mutation lock, as one step. Random ids and times are
-- arguments; a time is a number of milliseconds.
pub mod Types
pub mod Events
pub mod State
pub mod Supervision
pub mod Commit
pub mod Observation
pub mod Interruption
pub mod Reconcile
pub mod Requests
pub mod Manager
pub mod Cancel
pub mod Intent
pub mod Recover
pub mod Query
pub mod History
pub mod Lifecycle
pub mod Outcome
pub mod Observed
pub mod Restart
pub mod Repaired
pub mod Replay
pub mod Admission
pub mod Resume
pub mod Recovering
pub mod Finalized
mod Samples
mod Examples
mod CancelTrials
mod RecoverTrials
