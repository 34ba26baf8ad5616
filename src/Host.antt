-- ===== src/Host.antt =====
-- apps/host-daemon/src: the daemon that owns the terminal.
pub mod Journal
pub mod Session
pub mod RecoveryQueue
pub mod BarrierWaiter
