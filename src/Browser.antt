-- ===== src/Browser.antt =====
-- apps/terminal-cloud/src/browser: the browser's side of a session.
pub mod AckCoalescer
pub mod Intents
pub mod Ledger
