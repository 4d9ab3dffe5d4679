-- ===== src/Transport.antt =====
-- crates/igra/src/transport.rs: which requests are let through, and the intercepted raw send.
pub mod Route
pub mod Tracked
pub mod Send
pub mod Service
pub mod Regression
