-- ===== src/Relay.antt =====
-- apps/terminal-cloud/src/worker: the relay between the host and the browsers.
pub mod Delivery
pub mod WriterAuthority
pub mod MessageQueue
