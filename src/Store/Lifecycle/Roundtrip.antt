-- ===== src/Store/Lifecycle/Roundtrip.antt =====
-- crates/igra/src/store.rs: `persist_transition` followed by `load_tx`.
use igra_foundry_sdk.Prelude.{
  ℕ, ◌≤◌, ◌≡◌, ◌+◌, min, subst, refl, ap, Bool, true, false, Option, none, some, ok, arith, find,
  find-upsert, if◌then◌else◌, Bool-cases, inl, inr,
}
use igra_foundry_sdk.Prelude.Text.{Text, text_eq, text_eq_iff}
use igra_foundry_sdk.Prelude.Words.{as_i64, as_u64, as_u64-as_i64, u32_max, u64_max}
use igra_foundry_sdk.Store.Types.{parse-as_str, TxMapRecord, TxLifecycleUpdate}
use igra_foundry_sdk.Store.Db.{Db, TxRow, no_faults, exec, transaction}
use igra_foundry_sdk.Store.Lifecycle.{
  IgraStore, map_option, as_u32, next_attempts, first_created, row_of, write_row,
  persist_transition, record_of, decode_row, load_tx,
}

-- The numbers of an update and of the store are `u64`s.
abbrev OptionLe : Option ℕ → ℕ → Type 0
OptionLe none m = Unit
OptionLe (some n) m = n ≤ m

pub record InRange (store : IgraStore) (update : TxLifecycleUpdate) (now : ℕ) : Type 0 where
  pub l2_nonce : update.l2_nonce ≤ u64_max
  pub payload_nonce : OptionLe update.payload_nonce u64_max
  pub chain_id : store.expected_el_chain_id ≤ u64_max
  pub clock : now ≤ u64_max

map_option-roundtrip :
    (o : Option ℕ) → OptionLe o u64_max → map_option as_u64 (map_option as_i64 o) ≡ o
map_option-roundtrip none h = refl
map_option-roundtrip (some n) h = ap some (as_u64-as_i64 n h)

next_attempts-le : (row : Option TxRow) (b : Bool) → next_attempts row b ≤ u32_max
unfolding next_attempts
next_attempts-le none true = omega arith
next_attempts-le none false = omega arith
next_attempts-le (some row) b = omega arith

as_u32-as_i64 : (n : ℕ) → n ≤ u32_max → as_u32 (as_i64 n) ≡ n
unfolding as_u32
as_u32-as_i64 n h = rw (as_u64-as_i64 n (omega arith)) (omega arith)

-- The record of an update whose hash has `existing` as its row so far.
abbrev stored : IgraStore → TxLifecycleUpdate → Option TxRow → ℕ → TxMapRecord
stored store update existing now = record {
  l2_tx_hash = update.l2_tx_hash;
  sender = update.sender;
  l2_nonce = update.l2_nonce;
  payload_nonce = update.payload_nonce;
  kaspa_tx_id = update.kaspa_tx_id;
  state = update.state;
  chain_id = store.expected_el_chain_id;
  kaspa_network = store.kaspa_network;
  el_rpc_fingerprint = store.el_rpc_fingerprint;
  kaspa_rpc_fingerprint = store.kaspa_rpc_fingerprint;
  correlation_id = update.correlation_id;
  attempts = next_attempts existing update.increment_attempts;
  last_error_code = update.last_error_code;
  last_error_message = update.last_error_message;
  created_at_ms = first_created existing now;
  updated_at_ms = now;
}

record_of-row_of :
    (store : IgraStore) (update : TxLifecycleUpdate) (existing : Option TxRow) (now : ℕ)
    → InRange store update now
    → first_created existing now ≤ u64_max
    → record_of update.l2_tx_hash (row_of store update existing now) update.state
      ≡ stored store update existing now
unfolding record_of row_of
record_of-row_of store update existing now v c = λ i. record {
  l2_tx_hash = update.l2_tx_hash;
  sender = update.sender;
  l2_nonce = as_u64-as_i64 update.l2_nonce v.l2_nonce i;
  payload_nonce = map_option-roundtrip update.payload_nonce v.payload_nonce i;
  kaspa_tx_id = update.kaspa_tx_id;
  state = update.state;
  chain_id = as_u64-as_i64 store.expected_el_chain_id v.chain_id i;
  kaspa_network = store.kaspa_network;
  el_rpc_fingerprint = store.el_rpc_fingerprint;
  kaspa_rpc_fingerprint = store.kaspa_rpc_fingerprint;
  correlation_id = update.correlation_id;
  attempts =
      as_u32-as_i64 (next_attempts existing update.increment_attempts)
        (next_attempts-le existing update.increment_attempts) i;
  last_error_code = update.last_error_code;
  last_error_message = update.last_error_message;
  created_at_ms = as_u64-as_i64 (first_created existing now) c i;
  updated_at_ms = as_u64-as_i64 now v.clock i;
}

decode-row_of :
    (store : IgraStore) (update : TxLifecycleUpdate) (existing : Option TxRow) (now : ℕ)
    → InRange store update now
    → first_created existing now ≤ u64_max
    → decode_row update.l2_tx_hash (some (row_of store update existing now))
      ≡ ok (some (stored store update existing now))
unfolding decode_row row_of
decode-row_of store update existing now v c =
    rw (parse-as_str update.state, decode_row)
      (ap (λ r. ok (some r)) (record_of-row_of store update existing now v c))

-- The same, told from the row before.
load-persist_row :
    (store : IgraStore) (db : Db) (update : TxLifecycleUpdate) (now : ℕ) (k : Text)
    → InRange store update now
    → first_created (find update.l2_tx_hash db.tx_map) now ≤ u64_max
    → let r = persist_transition store no_faults db update now in
      (load_tx true no_faults r.1 k ≡ (
        if text_eq update.l2_tx_hash k
        then ok (some (stored store update (find update.l2_tx_hash db.tx_map) now))
        else load_tx true no_faults db k))
unfolding persist_transition transaction exec load_tx write_row
load-persist_row store db update now k v c =
    let existing = find update.l2_tx_hash db.tx_map in
    rw (find-upsert update.l2_tx_hash k (row_of store update existing now) db.tx_map)
      (elim (Bool-cases (text_eq update.l2_tx_hash k)) [
        | inl same ↦
            rw (same, ← (text_eq_iff update.l2_tx_hash k).0 same)
              (decode-row_of store update existing now v c)
        | inr other ↦ rw other
      ])

-- The attempts and the creation time, counted on from the record that was loaded before.
abbrev attempts_after : Option TxMapRecord → Bool → ℕ
attempts_after none false = 0
attempts_after none true = 1
attempts_after (some before) false = before.attempts
attempts_after (some before) true = min (before.attempts + 1) u32_max

abbrev pub created_at : Option TxMapRecord → ℕ → ℕ
created_at none now = now
created_at (some before) now = before.created_at_ms

abbrev pub persisted : IgraStore → TxLifecycleUpdate → Option TxMapRecord → ℕ → TxMapRecord
persisted store update before now = record {
  l2_tx_hash = update.l2_tx_hash;
  sender = update.sender;
  l2_nonce = update.l2_nonce;
  payload_nonce = update.payload_nonce;
  kaspa_tx_id = update.kaspa_tx_id;
  state = update.state;
  chain_id = store.expected_el_chain_id;
  kaspa_network = store.kaspa_network;
  el_rpc_fingerprint = store.el_rpc_fingerprint;
  kaspa_rpc_fingerprint = store.kaspa_rpc_fingerprint;
  correlation_id = update.correlation_id;
  attempts = attempts_after before update.increment_attempts;
  last_error_code = update.last_error_code;
  last_error_message = update.last_error_message;
  created_at_ms = created_at before now;
  updated_at_ms = now;
}

attempts_lem :
    (hash : Text) (existing : Option TxRow) (before : Option TxMapRecord) (increment : Bool)
    → decode_row hash existing ≡ ok before
    → next_attempts existing increment ≡ attempts_after before increment
unfolding decode_row record_of next_attempts as_u32
attempts_lem hash none none false h = refl
attempts_lem hash none none true h = refl
attempts_lem hash none (some before) increment h = absurd (cc)
attempts_lem hash (some row) none increment h = ground arith
attempts_lem hash (some row) (some before) false h = ground arith
attempts_lem hash (some row) (some before) true h = ground arith

created_lem :
    (hash : Text) (existing : Option TxRow) (before : Option TxMapRecord) (now : ℕ)
    → decode_row hash existing ≡ ok before
    → first_created existing now ≡ created_at before now
unfolding decode_row record_of first_created
created_lem hash none none now h = refl
created_lem hash none (some before) now h = absurd (cc)
created_lem hash (some row) none now h = ground arith
created_lem hash (some row) (some before) now h = ground arith

-- When no statement fails and the numbers are u64s, a persisted update is read back whole: its
-- own fields, the store's profile, the clock, and from the record that could be loaded before its
-- creation time, and its attempts with one more when the update asks for it, up to the largest u32;
-- a first record has the clock as its creation time. A record of another hash is as it was.
pub load-persist :
    (store : IgraStore) (db : Db) (update : TxLifecycleUpdate) (now : ℕ) (k : Text)
    (before : Option TxMapRecord)
    → InRange store update now
    → load_tx true no_faults db update.l2_tx_hash ≡ ok before
    → created_at before now ≤ u64_max
    → let r = persist_transition store no_faults db update now in
      (load_tx true no_faults r.1 k ≡ (
        if text_eq update.l2_tx_hash k
        then ok (some (persisted store update before now))
        else load_tx true no_faults db k))
unfolding load_tx exec
load-persist store db update now k before v loads c =
    let existing = find update.l2_tx_hash db.tx_map in
    let created = created_lem update.l2_tx_hash existing before now loads in
    let attempts = attempts_lem update.l2_tx_hash existing before update.increment_attempts loads in
    let same : stored store update existing now ≡ persisted store update before now = λ i.
      record (persisted store update before now) {
        attempts = attempts i;
        created_at_ms = created i;
      } in
    subst
      (λ x.
        load_tx true no_faults (persist_transition store no_faults db update now).1 k
        ≡ (if text_eq update.l2_tx_hash k then ok (some x) else load_tx true no_faults db k))
      same (load-persist_row store db update now k v (omega (arith, created)))
