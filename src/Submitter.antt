-- ===== src/Submitter.antt =====
-- crates/igra/src/submitter.rs: the cache of UTXOs and `submit_payload`.
pub mod Cache
pub mod Submit
