-- ===== src/Protocol.antt =====
-- packages/protocol/src: the wire protocol.
pub mod Errors
pub mod Frame
pub mod Cursor
pub mod Credit
