-- ===== src/Tests/Rows.antt =====
-- crates/igra/src/store.rs: rows of `tx_map` that are written, read, and deleted.
use igra_foundry_sdk.Prelude.{
  ◌≡◌, refl, true, none, some, [], ◌∷◌, ok, arith, find, Unique, delete_where, if◌then◌else◌,
}
use igra_foundry_sdk.Prelude.Text.{Text, codes, text_eq, one_of, is_alphanumeric}
use igra_foundry_sdk.Prelude.Words.{
  pos, as_u64, as_i64, saturating_mul, saturating_sub_i64, saturating_mul_i64,
}
use igra_foundry_sdk.Store.Types.{kaspa_signed, as_str, parse, TxMapRecord, TxLifecycleUpdate}
use igra_foundry_sdk.Store.Db.{Db, TxRow, exec, empty_db, no_faults}
use igra_foundry_sdk.Store.Lifecycle.{IgraStore, persist_transition, load_tx, decode_row}
use igra_foundry_sdk.Store.Lifecycle.Roundtrip.{persisted, load-persist}
use igra_foundry_sdk.Store.Profile.{reconcile_profile_cache}
use igra_foundry_sdk.Store.Profile.Reconcile.{same_profile, reopen_lem}
use igra_foundry_sdk.Store.Db.{after, statement}
use igra_foundry_sdk.Store.Prune.{
  delete_by_age, delete_both, delete_completed, delete_failed, then_budget, enforce_size_budget,
  delete_expired, expired, cutoff, evict_loop, prune_cache,
}
use igra_foundry_sdk.Store.Open.{sanitize_component}
use igra_foundry_sdk.Store.Open.Path.{IsComponent, sanitize-IsComponent}
use igra_foundry_sdk.Store.Prune.InFlight.{InFlight, prune_cache-InFlight}
use igra_foundry_sdk.Store.Prune.Budget.{Returns, evict_loop-Returns}

abbrev pub galleon : IgraStore
galleon = record {
  db_path = codes "/tmp/igra.sqlite";
  kaspa_network = codes "testnet-10";
  expected_el_chain_id = 38836;
  sender_lock_timeout_secs = 1;
  el_rpc_fingerprint = none;
  kaspa_rpc_fingerprint = some (codes "0xfe");
  completed_retention_hours = 168;
  failed_retention_hours = 720;
  max_db_size_mb = 512;
}

abbrev other_chain : IgraStore
other_chain = record galleon { expected_el_chain_id = 1 }

abbrev hash : Text
hash = codes "0x01"

abbrev signed : TxLifecycleUpdate
signed = record {
  l2_tx_hash = hash;
  sender = codes "0xa1";
  l2_nonce = 7;
  payload_nonce = some 3;
  kaspa_tx_id = none;
  state = kaspa_signed;
  correlation_id = codes "c";
  last_error_code = none;
  last_error_message = none;
  increment_attempts = true;
}

abbrev row : TxRow
row = record {
  sender = codes "0xa1";
  l2_nonce = pos 7;
  payload_nonce = none;
  kaspa_tx_id = none;
  state = codes "KASPA_SIGNED";
  chain_id = pos 38836;
  kaspa_network = codes "testnet-10";
  el_rpc_fingerprint = none;
  kaspa_rpc_fingerprint = none;
  correlation_id = codes "c";
  attempts = pos 0;
  last_error_code = none;
  last_error_message = none;
  created_at_ms = pos 50;
  updated_at_ms = pos 60;
}

-- One row in flight, one that is broadcast.
abbrev rows : Db
rows = record empty_db {
  tx_map = (hash, row) ∷ (codes "0x02", record row { state = codes "KASPA_BROADCASTED" }) ∷ [];
}

rows_Unique : Unique rows.tx_map
unfolding find text_eq
rows_Unique = (refl, (refl, tt))

row_found : find hash rows.tx_map ≡ some row
unfolding find text_eq
row_found = refl

-- The record of the row in flight.
abbrev before : TxMapRecord
before = record {
  l2_tx_hash = hash;
  sender = row.sender;
  l2_nonce = 7;
  payload_nonce = none;
  kaspa_tx_id = none;
  state = kaspa_signed;
  chain_id = 38836;
  kaspa_network = codes "testnet-10";
  el_rpc_fingerprint = none;
  kaspa_rpc_fingerprint = none;
  correlation_id = codes "c";
  attempts = 0;
  last_error_code = none;
  last_error_message = none;
  created_at_ms = 50;
  updated_at_ms = 60;
}

is_loaded : load_tx true no_faults rows hash ≡ ok (some before)
unfolding load_tx exec decode_row find text_eq as_u64 as_str parse
is_loaded = refl

load-persist_example :
    let r = persist_transition galleon no_faults rows signed 100 in
    (load_tx true no_faults r.1 hash ≡ (
      if text_eq hash hash
      then ok (some (persisted galleon signed (some before) 100))
      else load_tx true no_faults rows hash))
load-persist_example =
    load-persist galleon rows signed 100 hash (some before)
      (record {
        l2_nonce = omega arith;
        payload_nonce = omega arith;
        chain_id = omega arith;
        clock = omega arith;
      })
      is_loaded (omega arith)

reopen_lem_example :
    let db₁ = record (reconcile_profile_cache galleon no_faults empty_db).1 {
      tx_map = rows.tx_map;
    } in
    let db₂ = (reconcile_profile_cache other_chain no_faults db₁).1 in
    (db₂.tx_map ≡ (if same_profile galleon other_chain then db₁.tx_map else []))
    × (db₂.sender_nonce_state
        ≡ (if same_profile galleon other_chain then db₁.sender_nonce_state else []))
    × (db₂.sender_locks ≡ (if same_profile galleon other_chain then db₁.sender_locks else []))
reopen_lem_example =
    reopen_lem galleon other_chain empty_db
      (record (reconcile_profile_cache galleon no_faults empty_db).1 { tx_map = rows.tx_map }) refl

row-InFlight : InFlight row
unfolding one_of text_eq as_str
row-InFlight = refl

abbrev after_pruning : Db
after_pruning = record rows { tx_map = (hash, row) ∷ [] }

prunes : prune_cache 3 galleon 5_000_000_000 0 (λ i. 0) no_faults rows ≡ some (ok tt, after_pruning)
unfolding prune_cache delete_by_age delete_both delete_completed delete_failed then_budget
    enforce_size_budget after statement delete_expired expired delete_where cutoff exec one_of
    text_eq as_str saturating_mul as_i64 saturating_sub_i64 saturating_mul_i64
prunes = refl

prune_cache-InFlight_example : find hash after_pruning.tx_map ≡ some row
prune_cache-InFlight_example =
    prune_cache-InFlight hash row row-InFlight 3 galleon 5_000_000_000 0 (λ i. 0) no_faults rows
      after_pruning (ok tt) rows_Unique row_found prunes

evict_loop-Returns_example : Returns (evict_loop 3 0 (λ i. 1000) 10 no_faults rows)
evict_loop-Returns_example =
    evict_loop-Returns 3 0 (λ i. 1000) 10 no_faults rows rows_Unique (omega arith)

unknown-IsComponent : IsComponent (codes "unknown")
unfolding is_alphanumeric
unknown-IsComponent = ((λ e. cc), refl)

sanitize-IsComponent_example : IsComponent (sanitize_component (codes "../x y") (codes "unknown"))
sanitize-IsComponent_example =
    sanitize-IsComponent (codes "../x y") (codes "unknown") unknown-IsComponent
