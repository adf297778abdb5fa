-- ===== src/Frames.antt =====
-- The framed stdio protocol between the Controller runtime and the Host: src/protocol.mjs, from
-- `ProtocolError` to `readFrame`. A byte is a number; a stream is what its reader has buffered and
-- the chunks that are still to come.
pub mod Bytes
pub mod Wire
pub mod Reader
pub mod Bulk
pub mod Control
mod Examples
