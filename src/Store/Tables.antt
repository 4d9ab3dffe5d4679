-- ===== src/Store/Tables.antt =====
-- crates/igra/src/store.rs: the tables that the operations of the store can leave behind.
pub mod Commits
pub mod Reachable
use igra_foundry_sdk.Prelude.{
  ℕ, ◌≤◌, ◌≡◌, refl, Option, none, some, find, Unique, Table, Rows, Rows-find, Rows-upsert,
  upsert-Unique, delete_where-Unique,
}
use igra_foundry_sdk.Prelude.Text.{Text}
use igra_foundry_sdk.Prelude.Words.{as_u64, as_u64-as_i64, u64_max}
use igra_foundry_sdk.Store.Types.{TxLifecycleState, parse, parse-as_str, TxLifecycleUpdate}
use igra_foundry_sdk.Store.Db.{Db, TxRow, empty_db}
use igra_foundry_sdk.Store.Lock.{write_lease, delete_lease}
use igra_foundry_sdk.Store.Nonce.{set_expected}
use igra_foundry_sdk.Store.Lifecycle.{IgraStore, row_of, write_row, first_created}
use igra_foundry_sdk.Store.Profile.{clear_tables, write_profile, set_metadata_value}

-- A row that `load_tx` can read: its state has a name, and it was created at a `u64`.
pub record IsReadable (row : TxRow) : Type 0 where
  pub state : TxLifecycleState
  pub known : parse row.state ≡ some state
  pub created : as_u64 row.created_at_ms ≤ u64_max

pub record IsDb (db : Db) : Type 0 where
  pub meta : Unique db.schema_meta
  pub tx : Unique db.tx_map
  pub nonces : Unique db.sender_nonce_state
  pub locks : Unique db.sender_locks
  pub rows : Rows IsReadable db.tx_map

pub empty_db-IsDb : IsDb empty_db
empty_db-IsDb = record { meta = tt; tx = tt; nonces = tt; locks = tt; rows = tt }

pub write_lease-IsDb :
    (db : Db) (sender owner_id : Text) (now lease_ms : ℕ)
    → IsDb db
    → IsDb (write_lease db sender owner_id now lease_ms)
unfolding write_lease
write_lease-IsDb db sender owner_id now lease_ms h = record {
  meta = h.meta;
  tx = h.tx;
  nonces = h.nonces;
  locks = upsert-Unique sender _ db.sender_locks h.locks;
  rows = h.rows;
}

pub delete_lease-IsDb :
    (sender owner_id : Text) (db : Db) → IsDb db → IsDb (delete_lease sender owner_id db)
unfolding delete_lease
delete_lease-IsDb sender owner_id db h = record {
  meta = h.meta;
  tx = h.tx;
  nonces = h.nonces;
  locks = delete_where-Unique _ db.sender_locks h.locks;
  rows = h.rows;
}

pub set_expected-IsDb :
    (db : Db) (sender : Text) (nonce now : ℕ) → IsDb db → IsDb (set_expected db sender nonce now)
unfolding set_expected
set_expected-IsDb db sender nonce now h = record {
  meta = h.meta;
  tx = h.tx;
  nonces = upsert-Unique sender _ db.sender_nonce_state h.nonces;
  locks = h.locks;
  rows = h.rows;
}

first_created-le :
    (existing : Option TxRow) (rows : Table TxRow) (hash : Text) (now : ℕ)
    → find hash rows ≡ existing
    → Rows IsReadable rows
    → now ≤ u64_max
    → first_created existing now ≤ u64_max
unfolding first_created
first_created-le none rows hash now e h fits = fits
first_created-le (some row) rows hash now e h fits =
    (Rows-find IsReadable hash row rows h e).created

pub write_row-IsDb :
    (store : IgraStore) (db : Db) (update : TxLifecycleUpdate) (now : ℕ)
    → now ≤ u64_max
    → IsDb db
    → IsDb (write_row store db update now)
unfolding write_row row_of
write_row-IsDb store db update now fits h =
    let existing = find update.l2_tx_hash db.tx_map in
    let created = first_created-le existing db.tx_map update.l2_tx_hash now refl h.rows fits in
    record {
      meta = h.meta;
      nonces = h.nonces;
      locks = h.locks;
      tx = upsert-Unique update.l2_tx_hash _ db.tx_map h.tx;
      rows =
          Rows-upsert IsReadable update.l2_tx_hash (row_of store update existing now) db.tx_map
            (record {
              state = update.state;
              known = parse-as_str update.state;
              created = rw (as_u64-as_i64 (first_created existing now) created) created;
            })
            h.rows;
    }

set_metadata-Unique :
    (m : Table Text) (key : Text) (o : Option Text) → Unique m → Unique (set_metadata_value m key o)
unfolding set_metadata_value
set_metadata-Unique m key none h = delete_where-Unique _ m h
set_metadata-Unique m key (some v) h = upsert-Unique key v m h

pub write_profile-Unique :
    (store : IgraStore) (m : Table Text) → Unique m → Unique (write_profile store m)
unfolding write_profile
write_profile-Unique store m h = search (set_metadata-Unique)

clear_tables-IsDb : (db : Db) → IsDb db → IsDb (clear_tables db)
unfolding clear_tables
clear_tables-IsDb db h = record { meta = h.meta; tx = tt; nonces = tt; locks = tt; rows = tt }
