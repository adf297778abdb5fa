-- ===== src/Sessions.antt =====
-- The terminals of controller sessions: the part of src/controller-sessions.mjs that stands between a
-- pseudo terminal and the browsers attached to it.
pub mod Terminal
pub mod Output
pub mod Attach
pub mod Input
pub mod Numbering
pub mod Buffered
pub mod Steps
pub mod Attached
pub mod Soundness
pub mod Delivered
pub mod Gapless
pub mod Served
pub mod Advance
pub mod Delivery
pub mod Entered
pub mod Relay
pub mod Exclusive
mod Samples
mod Examples
