-- ===== src/Payload.antt =====
-- crates/igra/src/payload.rs: payload bytes, fees, the choice of UTXOs, and mining.
pub mod Fee
pub mod Format
pub mod Select
pub mod Mine
pub mod Build
pub mod Regression
