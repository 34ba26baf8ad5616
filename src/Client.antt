-- ===== src/Client.antt =====
-- packages/session-client/src: the client of a session.
pub mod ZstdFrame
pub mod Deliveries
pub mod Coordinator
