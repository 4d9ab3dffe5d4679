-- ===== src/Store/Open.antt =====
-- crates/igra/src/store.rs: `IgraStore::new` and `open_read_only`, the file's name and the fingerprints.
pub mod Path
use igra_foundry_sdk.Prelude.{
  ℕ, Bool, true, false, ◌||◌, Option, none, some, [], ◌∷◌, ◌++◌, Result, ok, err, map, reverse,
  ◌==◌, if◌then◌else◌, unwrap_or,
}
use igra_foundry_sdk.Prelude.Text.{Text, codes, trim, is_alphanumeric, decimal}
use igra_foundry_sdk.Store.Types.{IgraStoreError, sqlite, display}
use igra_foundry_sdk.Store.Db.{Db, Faults}
use igra_foundry_sdk.Store.Lifecycle.{IgraStore}
use igra_foundry_sdk.Store.Profile.{reconcile_profile_cache, migrate}
use igra_foundry_sdk.Store.Prune.{prune_cache, then_budget}

pub record IgraStoreConfig : Type 0 where
  pub db_path : Option Text
  pub cache_dir : Option Text
  pub kaspa_network : Option Text
  pub expected_el_chain_id : Option ℕ
  pub el_rpc_url : Option Text
  pub kaspa_rpc_url : Option Text
  pub sender_lock_timeout_secs : Option ℕ
  pub completed_retention_hours : Option ℕ
  pub failed_retention_hours : Option ℕ
  pub max_db_size_mb : Option ℕ

pub sanitize_char : ℕ → ℕ
sanitize_char ch = if is_alphanumeric ch || ch == b'-' || ch == b'_' then ch else b'-'

pub or_fallback : Text → Text → Text
or_fallback [] fallback = fallback
or_fallback (c ∷ s) fallback = c ∷ s

pub sanitize_component : Text → Text → Text
unfolding sanitize_char or_fallback
sanitize_component value fallback = or_fallback (map sanitize_char (trim value)) fallback

-- `hex::encode(keccak256(bytes))` is the parameter.
fingerprint_trimmed : (Text → Text) → Text → ℕ → Option Text → Option Text
fingerprint_trimmed keccak_hex [] chain_id network = none
fingerprint_trimmed keccak_hex (c ∷ url) chain_id network = some (
    codes "0x"
    ++ keccak_hex (
        (c ∷ url)
        ++ codes "|"
        ++ decimal chain_id
        ++ codes "|"
        ++ unwrap_or network (codes "unknown")))

fingerprint : (Text → Text) → Option Text → ℕ → Option Text → Option Text
unfolding fingerprint_trimmed
fingerprint keccak_hex none chain_id network = none
fingerprint keccak_hex (some url) chain_id network =
    fingerprint_trimmed keccak_hex (trim url) chain_id network

-- `PathBuf::join` on a Unix path: an absolute path replaces what stands before it.
join_onto : Text → Text → Text
join_onto [] s = s
join_onto (c ∷ r) s = reverse (c ∷ r) ++ (if c == b'/' then s else b'/' ∷ s)

pub join : Text → Text → Text
unfolding join_onto
join base [] = join_onto (reverse base) []
join base (c ∷ s) = if c == b'/' then c ∷ s else join_onto (reverse base) (c ∷ s)

-- The environment: the variable HOME and the directory for temporary files.
default_cache_dir : Option Text → Text → Text
unfolding join
default_cache_dir none temp_dir = join (join temp_dir (codes "foundry")) (codes "cache")
default_cache_dir (some home) temp_dir = join (join home (codes ".foundry")) (codes "cache")

default_db_path : Option Text → Text → IgraStoreConfig → Text → ℕ → Text
unfolding default_cache_dir
default_db_path home temp_dir config kaspa_network chain_id =
    join (join (unwrap_or config.cache_dir (default_cache_dir home temp_dir)) (codes "igra"))
      (codes "tx-map-v1-" ++ kaspa_network ++ codes "-" ++ decimal chain_id ++ codes ".sqlite")

-- The fields of the store, before it touches the file.
store_of : (Text → Text) → Option Text → Text → IgraStoreConfig → IgraStore
unfolding sanitize_component fingerprint default_db_path
store_of keccak_hex home temp_dir config =
    let network =
      sanitize_component (unwrap_or config.kaspa_network (codes "unknown")) (codes "unknown") in
    let chain_id = unwrap_or config.expected_el_chain_id 0 in
    record {
      db_path = unwrap_or config.db_path (default_db_path home temp_dir config network chain_id);
      kaspa_network = network;
      expected_el_chain_id = chain_id;
      sender_lock_timeout_secs = unwrap_or config.sender_lock_timeout_secs 60;
      el_rpc_fingerprint = fingerprint keccak_hex config.el_rpc_url chain_id config.kaspa_network;
      kaspa_rpc_fingerprint =
          fingerprint keccak_hex config.kaspa_rpc_url chain_id config.kaspa_network;
      completed_retention_hours = unwrap_or config.completed_retention_hours 168;
      failed_retention_hours = unwrap_or config.failed_retention_hours 720;
      max_db_size_mb = unwrap_or config.max_db_size_mb 512;
    }

-- What the outside answers while a store is opened: whether the directory can be made, the calls of
-- `migrate`, `reconcile_profile_cache` and `prune_cache`, the clock and the sizes of the file.
pub record Opening : Type 0 where
  pub create_dir : Option Text
  pub migrating : Faults
  pub reconciling : Faults
  pub pruning : Faults
  pub now_ms : ℕ
  pub size : ℕ
  pub sizes : ℕ → ℕ

-- The text of a report: an error of the connection in `migrate` comes as it is.
cause : IgraStoreError → Text
cause (sqlite f) = f.message
cause e = display e

reported : Option (Result IgraStoreError (Unit {0}) × Db) → Option (Result Text (Unit {0}) × Db)
reported none = none
reported (some (ok _, db)) = some (ok tt, db)
reported (some (err e, db)) = some (err (display e), db)

after_migrate :
    Result IgraStoreError (Unit {0}) × Db
    → (Db → Option (Result IgraStoreError (Unit {0}) × Db))
    → Option (Result Text (Unit {0}) × Db)
unfolding cause reported
after_migrate (err e, db) next = some (err (cause e), db)
after_migrate (ok _, db) next = reported (next db)

initialize : ℕ → IgraStore → Opening → Db → Option (Result Text (Unit {0}) × Db)
unfolding then_budget migrate reconcile_profile_cache prune_cache after_migrate
initialize fuel store o db = elim o.create_dir [
  | some message ↦ some (err message, db)
  | none ↦ after_migrate (migrate o.migrating db) (λ d.
      then_budget (reconcile_profile_cache store o.reconciling d)
        (prune_cache fuel store o.now_ms o.size o.sizes o.pruning))
]

-- `from_config(config, true)` is `new`, `from_config(config, false)` is `open_read_only`.
unfoldable pub from_config :
    ℕ
    → (Text → Text)
    → Option Text
    → Text
    → IgraStoreConfig
    → Bool
    → Opening
    → Db
    → Option (Result Text IgraStore × Db)
unfolding store_of initialize
from_config fuel keccak_hex home temp_dir config false o db =
    some (ok (store_of keccak_hex home temp_dir config), db)
from_config fuel keccak_hex home temp_dir config true o db =
    elim (initialize fuel (store_of keccak_hex home temp_dir config) o db) [
      | none ↦ none
      | some (r, db') ↦
          some
            (elim r [ ok _ ↦ ok (store_of keccak_hex home temp_dir config) | err e ↦ err e ], db')
    ]
