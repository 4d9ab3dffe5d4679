-- ===== src/Store/Lifecycle.antt =====
-- crates/igra/src/store.rs: `persist_transition` and `load_tx`, the rows of `tx_map`.
pub mod Roundtrip
use igra_foundry_sdk.Prelude.{
  ℕ, ◌+◌, ◌%◌, ◌^◌, Bool, true, false, Option, none, some, Result, ok, err, ◌>>=◌, ◌>>◌, ◌++◌, find,
  upsert, min,
}
use igra_foundry_sdk.Prelude.Text.{Text, codes}
use igra_foundry_sdk.Prelude.Words.{ℤ, as_i64, as_u64, u32_max}
use igra_foundry_sdk.Store.Types.{
  IgraStoreError, sqlite, other_code, TxLifecycleState, as_str, parse, TxMapRecord,
  TxLifecycleUpdate,
}
use igra_foundry_sdk.Store.Db.{Db, TxRow, Faults, exec, transaction}

-- The configured store: `IgraStore`.
pub record IgraStore : Type 0 where
  pub db_path : Text
  pub kaspa_network : Text
  pub expected_el_chain_id : ℕ
  pub sender_lock_timeout_secs : ℕ
  pub el_rpc_fingerprint : Option Text
  pub kaspa_rpc_fingerprint : Option Text
  pub completed_retention_hours : ℕ
  pub failed_retention_hours : ℕ
  pub max_db_size_mb : ℕ

abbrev pub map_option : {A B : Type 0} → (A → B) → Option A → Option B
map_option f none = none
map_option f (some a) = some (f a)

-- `u32::from(b)`, `x as u32`, `u32::saturating_add`.
abbrev from_bool : Bool → ℕ
from_bool true = 1
from_bool false = 0

pub as_u32 : ℤ → ℕ
as_u32 z = as_u64 z % 2 ^ 32

pub next_attempts : Option TxRow → Bool → ℕ
unfolding as_u32
next_attempts none increment = from_bool increment
next_attempts (some row) increment = min (as_u32 row.attempts + from_bool increment) u32_max

unfoldable pub first_created : Option TxRow → ℕ → ℕ
first_created none now = now
first_created (some row) now = as_u64 row.created_at_ms

-- The row that the INSERT ... ON CONFLICT writes.
unfoldable pub row_of : IgraStore → TxLifecycleUpdate → Option TxRow → ℕ → TxRow
unfolding next_attempts first_created
row_of store update existing now = record {
  sender = update.sender;
  l2_nonce = as_i64 update.l2_nonce;
  payload_nonce = map_option as_i64 update.payload_nonce;
  kaspa_tx_id = update.kaspa_tx_id;
  state = as_str update.state;
  chain_id = as_i64 store.expected_el_chain_id;
  kaspa_network = store.kaspa_network;
  el_rpc_fingerprint = store.el_rpc_fingerprint;
  kaspa_rpc_fingerprint = store.kaspa_rpc_fingerprint;
  correlation_id = update.correlation_id;
  attempts = as_i64 (next_attempts existing update.increment_attempts);
  last_error_code = update.last_error_code;
  last_error_message = update.last_error_message;
  created_at_ms = as_i64 (first_created existing now);
  updated_at_ms = as_i64 now;
}

unfoldable pub write_row : IgraStore → Db → TxLifecycleUpdate → ℕ → Db
unfolding row_of
write_row store db update now = record db {
  tx_map =
      upsert update.l2_tx_hash (row_of store update (find update.l2_tx_hash db.tx_map) now)
        db.tx_map;
}

-- Opening is call 0, BEGIN 1, the SELECT 2, the INSERT 3, COMMIT 4.
unfoldable pub persist_transition :
    IgraStore → Faults → Db → TxLifecycleUpdate → ℕ → Result IgraStoreError (Unit {0}) × Db
unfolding write_row
persist_transition store faults db update now = transaction db do
  exec faults 0
  exec faults 1
  exec faults 2
  exec faults 3
  exec faults 4
  ok (tt, write_row store db update now)

pub record_of : Text → TxRow → TxLifecycleState → TxMapRecord
unfolding as_u32
record_of hash row state = record {
  l2_tx_hash = hash;
  sender = row.sender;
  l2_nonce = as_u64 row.l2_nonce;
  payload_nonce = map_option as_u64 row.payload_nonce;
  kaspa_tx_id = row.kaspa_tx_id;
  state = state;
  chain_id = as_u64 row.chain_id;
  kaspa_network = row.kaspa_network;
  el_rpc_fingerprint = row.el_rpc_fingerprint;
  kaspa_rpc_fingerprint = row.kaspa_rpc_fingerprint;
  correlation_id = row.correlation_id;
  attempts = as_u32 row.attempts;
  last_error_code = row.last_error_code;
  last_error_message = row.last_error_message;
  created_at_ms = as_u64 row.created_at_ms;
  updated_at_ms = as_u64 row.updated_at_ms;
}

-- A state that `parse` does not know is a conversion failure of the query.
unfoldable pub decode_row : Text → Option TxRow → Result IgraStoreError (Option TxMapRecord)
unfolding record_of
decode_row hash none = ok none
decode_row hash (some row) = elim (parse row.state) [
  | none ↦ err (
      sqlite
        (record { code = other_code; message = codes "unknown state `" ++ row.state ++ codes "`" }))
  | some state ↦ ok (some (record_of hash row state))
]

-- `exists` is whether the database file is there; opening it is call 0, the SELECT call 1.
unfoldable pub load_tx : Bool → Faults → Db → Text → Result IgraStoreError (Option TxMapRecord)
unfolding decode_row
load_tx false faults db l2_tx_hash = ok none
load_tx true faults db l2_tx_hash = do
  exec faults 0
  exec faults 1
  decode_row l2_tx_hash (find l2_tx_hash db.tx_map)
