-- ===== src/Host.antt =====
-- What the Host keeps beside its runs: the locks of its private state.
pub mod Lock
