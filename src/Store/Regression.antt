-- ===== src/Store/Regression.antt =====
-- crates/igra/src/store.rs: the tests of the file on the schema and the rows, run on the model.
mod Senders
use igra_foundry_sdk.Prelude.{
  ◌≡◌, refl, Bool, true, false, ◌&&◌, not, Option, none, some, List, [], ◌∷◌, Result, ok, err, ◌==◌,
  find, upsert, delete_where,
}
use igra_foundry_sdk.Prelude.Text.{Text, codes, text_eq, option_text_eq, trim}
use igra_foundry_sdk.Prelude.Words.{saturating_mul}
use igra_foundry_sdk.Store.Types.{
  IgraStoreError, parse, TxLifecycleState, TxLifecycleUpdate, TxMapRecord, as_str, received_raw_l2,
  kaspa_unsigned_created, kaspa_prefix_mined, kaspa_signed, kaspa_broadcasted,
}
use igra_foundry_sdk.Store.Db.{Db, empty_db, no_faults, exec, transaction}
use igra_foundry_sdk.Store.Lifecycle.{IgraStore, persist_transition, load_tx}
use igra_foundry_sdk.Store.Profile.{schema_version_key, schema_version_value}
use igra_foundry_sdk.Store.Open.{IgraStoreConfig, Opening, from_config}
use igra_foundry_sdk.Prelude.Text.{decimal, is_alphanumeric}
use igra_foundry_sdk.Prelude.Words.{as_u64, as_i64}

abbrev calm_opening : Opening
calm_opening = record {
  create_dir = none;
  migrating = no_faults;
  reconciling = no_faults;
  pruning = no_faults;
  now_ms = 1000;
  size = 0;
  sizes = λ i. 0;
}

abbrev test_config : IgraStoreConfig
test_config = record {
  db_path = some (codes "/tmp/test.sqlite");
  cache_dir = none;
  kaspa_network = some (codes "testnet-10");
  expected_el_chain_id = some 1337;
  sender_lock_timeout_secs = some 1;
  el_rpc_url = none;
  kaspa_rpc_url = none;
  completed_retention_hours = none;
  failed_retention_hours = none;
  max_db_size_mb = none;
}

-- `IgraStore::new(config)` on a file with these tables; the digest is any function that keeps
-- texts apart.
abbrev pub opened : IgraStoreConfig → Db → Option (Result Text IgraStore × Db)
opened config db = from_config 1 (λ text. text) none (codes "/tmp") config true calm_opening db

-- What a test does with the store that it opened.
abbrev with_store : Option (Result Text IgraStore × Db) → (IgraStore → Db → Bool) → Bool
with_store (some (ok store, db)) f = f store db
with_store (some (err e, db)) f = false
with_store none f = false

abbrev is_version : Option Text → Bool
is_version none = false
is_version (some v) = text_eq v schema_version_value

-- The four tables always exist in the model; what is left is the version.
abbrev igra_store_migration_initializes_schema : Bool
igra_store_migration_initializes_schema =
    with_store (opened test_config empty_db)
      (λ store db. is_version (find schema_version_key db.schema_meta))

abbrev broadcast_update : TxLifecycleUpdate
broadcast_update = record {
  l2_tx_hash = codes "0xdeadbeef";
  sender = codes "0x33";
  l2_nonce = 3;
  payload_nonce = some 3;
  kaspa_tx_id = some (codes "kaspa-a");
  state = kaspa_broadcasted;
  correlation_id = codes "corr-a";
  last_error_code = none;
  last_error_message = none;
  increment_attempts = false;
}

abbrev is_absent : Result IgraStoreError (Option TxMapRecord) → Bool
is_absent (ok none) = true
is_absent _ = false

abbrev first_config : IgraStoreConfig
first_config = record test_config {
  el_rpc_url = some (codes "http://127.0.0.1:8545");
  kaspa_rpc_url = some (codes "grpc://127.0.0.1:16110");
}

abbrev second_config : IgraStoreConfig
second_config = record test_config {
  kaspa_network = some (codes "mainnet");
  expected_el_chain_id = some 1;
  el_rpc_url = some (codes "https://mainnet.example");
  kaspa_rpc_url = some (codes "grpc://mainnet.example");
}

abbrev igra_store_profile_change_invalidates_cached_rows : Bool
igra_store_profile_change_invalidates_cached_rows =
    with_store (opened first_config empty_db) λ first db.
      let persisted = (persist_transition first no_faults db broadcast_update 1000).1 in
      not (is_absent (load_tx true no_faults persisted (codes "0xdeadbeef")))
      && with_store (opened second_config persisted)
          (λ second db'. is_absent (load_tx true no_faults db' (codes "0xdeadbeef")))

abbrev persist_all : IgraStore → List TxLifecycleState → Db → Db
persist_all store [] db = db
persist_all store (s ∷ ss) db =
    persist_all store ss
      (persist_transition store no_faults db
        (record broadcast_update {
          l2_tx_hash = codes "0xabc123";
          kaspa_tx_id = some (codes "kaspa-tx-1");
          state = s;
          correlation_id = codes "corr-1";
        })
        1000).1

abbrev is_last_record : Result IgraStoreError (Option TxMapRecord) → Bool
is_last_record (ok (some r)) =
    text_eq (as_str r.state) (as_str kaspa_broadcasted)
    && text_eq r.sender (codes "0x33")
    && (r.l2_nonce == 3)
    && elim r.payload_nonce [ none ↦ false | some n ↦ n == 3 ]
    && (r.chain_id == 1337)
    && text_eq r.kaspa_network (codes "testnet-10")
    && (r.attempts == 0)
    && text_eq r.correlation_id (codes "corr-1")
is_last_record _ = false

abbrev igra_store_happy_path_transition_sequence : Bool
igra_store_happy_path_transition_sequence = with_store (opened test_config empty_db) λ store db.
    is_last_record (
      load_tx true no_faults
        (persist_all store
          (received_raw_l2 ∷ kaspa_unsigned_created ∷ kaspa_prefix_mined ∷ kaspa_signed
            ∷ kaspa_broadcasted ∷ [])
          db)
        (codes "0xabc123"))

-- The tests of store.rs on the schema and the rows pass on the model.
row_tests_pass :
    (igra_store_migration_initializes_schema && igra_store_profile_change_invalidates_cached_rows
      && igra_store_happy_path_transition_sequence)
    ≡ true
unfolding from_config transaction exec find upsert text_eq option_text_eq saturating_mul
    delete_where trim load_tx persist_transition parse as_str decimal as_u64 as_i64 is_alphanumeric
row_tests_pass = refl
