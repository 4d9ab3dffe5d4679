-- ===== src/Lib.antt =====
-- IGRA Foundry SDK, crates/igra/src: a model of the crate that lets Foundry send Ethereum transactions
-- to the IGRA network, whose transactions travel as payloads of Kaspa transactions.
--
-- The parts and the files that model them:
-- * Transport (transport.rs). `Transport.Route` is what `request` decides about a packet: send it on to
--   the wrapped transport, refuse it, or take it over as a raw send. `Transport.Tracked` is what
--   a raw send carries, the world it meets and the log it leaves. `Transport.Send` is its future:
--   `raw_send` runs the inner block (the polling for the sender's lock, the submission, the states that
--   are recorded) and what stands behind it (FAILED_RECOVERABLE, the release). The
--   operations on the store run in separate tasks, so before each of them other tasks may do anything to
--   the tables: `CallWorld.interference`. What a send does is also listed as events. `Transport.Send.Calm`
--   follows a send that meets no failure from table to table. `Transport.Service` is `IgraTransport`
--   with its builders, and `request` as a whole.
-- * Store (store.rs), the SQLite file. `Store.Db` has the four tables; a row is keyed by its primary
--   key. `Store.Lock`, `Store.Nonce` and `Store.Lifecycle` are the operations of a send, `Store.Profile`,
--   `Store.Prune` and `Store.Open` those of opening a store. SQLite is a parameter: `Faults` says of each
--   call of an operation whether it fails, and a transaction that fails leaves the tables as they were.
--   `Store.Operation` puts the operations into one type, `run`; `Store.Operation.View` is the contract
--   of the store, `promise`, on leases, nonces, transactions and settings as functions, which forgets
--   rows, their order and the casts (the columns of a transaction and how they are read are those of
--   the tables). `Store.Tables` is what the tables look like after any operations, and
--   `Store.Schedule` the steps of tasks and processes that share one file: time passes, an operation
--   runs, or the file is pruned.
-- * Submitter (submitter.rs). `Submitter.Cache` is the cache of UTXOs with its epoch, `Submitter.Submit`
--   is `submit_payload` with its two attempts, and `Submitter.Submit.Origin` says where its key, prefix,
--   address and UTXOs come from. The Kaspa node is a parameter.
-- * Payload (payload.rs). `Payload.Format` and `Payload.Fee` are the pure functions, `Payload.Select`,
--   `Payload.Mine` and `Payload.Build` the three stages of `mine_and_build_signed_payload_transaction`.
--   Signing, transaction ids, scripts and masses are those of the Kaspa crates, as parameters.
-- * Config (config.rs), Errors (errors.rs) and Keys (keys.rs): the configuration's checks, the guard of
--   signer flows with the catalog of errors, and where the Kaspa key comes from. URLs, BIP32, files and
--   keystores are parameters.
-- Prelude has the helpers that these share: results, tables, texts as lists of code points, and 64-bit
-- words with their saturation and casts. The modules below Tests run the models on small data;
-- those named Regression are the crate's own unit tests, run on the models. Tests that sleep are given
-- the clock, and tests that need BIP32, a signature or a Kaspa address are left out.
--
-- Numbers are natural numbers with the wrap-around and the saturation written out. Loops: polling takes
-- the list of the rounds that the outside grants it, mining and eviction take fuel; `none` is a loop
-- that was given too little. Enough are the timeout divided by 25 ms and one round more for polling, as
-- a round sleeps 25 ms; one round more than the first that is over the timeout for mining; and one
-- round more than there are rows for eviction, as a round that goes on deletes a row. Texts of log
-- lines, the async runtime, the wire formats of JSON-RPC and gRPC, and the installer, patches and
-- examples are not modelled. Of the schedules it is assumed that tasks take leases by one clock that does
-- not go back, and that no store of another profile than the one in the file opens it, which deletes
-- every lease; stores of the same profile may open it at any time. The classification of a nonce reads
-- the clock once more for the time stamp of the nonce's row; the model gives it the reading of its
-- transaction. A table that is not there yet is an empty one in the model, so the CREATE statements of
-- `migrate` change nothing in it.
pub mod Prelude
pub mod Config
pub mod Errors
pub mod Keys
pub mod Payload
pub mod Store
pub mod Submitter
pub mod Transport
mod Tests
