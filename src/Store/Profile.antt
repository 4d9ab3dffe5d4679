-- ===== src/Store/Profile.antt =====
-- crates/igra/src/store.rs: `migrate`, and `reconcile_profile_cache` with the profile's keys.
pub mod Reconcile
use igra_foundry_sdk.Prelude.{
  Bool, true, false, not, ◌||◌, Option, none, some, [], Result, ok, ◌>>=◌, ◌>>◌, find, upsert,
  delete_where, Table,
}
use igra_foundry_sdk.Prelude.Text.{Text, codes, text_eq, option_text_eq, decimal}
use igra_foundry_sdk.Store.Types.{IgraStoreError}
use igra_foundry_sdk.Store.Db.{Action, after, statement, Db, Faults, exec, transaction}
use igra_foundry_sdk.Store.Lifecycle.{IgraStore}

abbrev pub schema_version_key : Text
schema_version_key = codes "tx_map_schema_version"

abbrev pub schema_version_value : Text
schema_version_value = codes "1"

abbrev pub profile_chain_id_key : Text
profile_chain_id_key = codes "profile.expected_el_chain_id"

abbrev pub profile_kaspa_network_key : Text
profile_kaspa_network_key = codes "profile.kaspa_network"

abbrev pub profile_el_rpc_fingerprint_key : Text
profile_el_rpc_fingerprint_key = codes "profile.el_rpc_fingerprint"

abbrev pub profile_kaspa_rpc_fingerprint_key : Text
profile_kaspa_rpc_fingerprint_key = codes "profile.kaspa_rpc_fingerprint"

unfoldable pub metadata_value : Table Text → Text → Option Text
metadata_value meta key = find key meta

unfoldable pub set_metadata_value : Table Text → Text → Option Text → Table Text
set_metadata_value meta key (some value) = upsert key value meta
set_metadata_value meta key none = delete_where (λ k v. text_eq k key) meta

unfoldable pub metadata_changed : Option Text → Option Text → Bool
metadata_changed previous current = not (option_text_eq previous current)

-- `is_some_and(|value| value != expected)`
unfoldable pub differs : Option Text → Text → Bool
differs none expected = false
differs (some value) expected = not (text_eq value expected)

unfoldable pub profile_changed : IgraStore → Table Text → Bool
unfolding metadata_value metadata_changed differs
profile_changed store meta =
    differs (metadata_value meta profile_chain_id_key) (decimal store.expected_el_chain_id)
    || differs (metadata_value meta profile_kaspa_network_key) store.kaspa_network
    || metadata_changed (metadata_value meta profile_el_rpc_fingerprint_key)
        store.el_rpc_fingerprint
    || metadata_changed (metadata_value meta profile_kaspa_rpc_fingerprint_key)
        store.kaspa_rpc_fingerprint

unfoldable pub clear_tables : Db → Db
clear_tables db = record db { tx_map = []; sender_nonce_state = []; sender_locks = [] }

unfoldable pub write_profile : IgraStore → Table Text → Table Text
unfolding set_metadata_value
write_profile store meta =
    let m₁ =
      set_metadata_value meta profile_chain_id_key (some (decimal store.expected_el_chain_id)) in
    let m₂ = set_metadata_value m₁ profile_kaspa_network_key (some store.kaspa_network) in
    let m₃ = set_metadata_value m₂ profile_el_rpc_fingerprint_key store.el_rpc_fingerprint in
    set_metadata_value m₃ profile_kaspa_rpc_fingerprint_key store.kaspa_rpc_fingerprint

-- The three DELETEs are calls 6, 7 and 8.
unfoldable pub clear_if : Bool → Faults → Db → Result IgraStoreError Db
unfolding clear_tables
clear_if false faults db = ok db
clear_if true faults db = do exec faults 6; exec faults 7; exec faults 8; ok (clear_tables db)

-- Opening is call 0, BEGIN 1, the four SELECTs 2 to 5, the four writes 9 to 12, COMMIT 13.
unfoldable pub reconcile_profile_cache :
    IgraStore → Faults → Db → Result IgraStoreError (Unit {0}) × Db
unfolding profile_changed clear_if write_profile
reconcile_profile_cache store faults db = transaction db do
  exec faults 0
  exec faults 1
  exec faults 2
  exec faults 3
  exec faults 4
  exec faults 5
  db' ← clear_if (profile_changed store db.schema_meta) faults db
  exec faults 9
  exec faults 10
  exec faults 11
  exec faults 12
  exec faults 13
  ok (tt, record db' { schema_meta = write_profile store db'.schema_meta })

-- Opening is call 0, the batch of CREATE statements call 1, the INSERT call 2; no transaction is
-- open, so what the batch made stays when the INSERT fails. `Db` does not tell a table that is
-- not there yet from an empty one, so the batch changes nothing in it.
unfoldable pub migrate : Faults → Action
unfolding after statement
migrate faults db = after (after (statement faults 0 (λ d. d) db) (statement faults 1 (λ d. d))) (
    statement faults 2 (λ d. record d {
      schema_meta = upsert schema_version_key schema_version_value d.schema_meta;
    }))
