-- ===== src/Store/Tables/Reachable.antt =====
-- crates/igra/src/store.rs: every table that operations and prunings can leave, and what holds
-- of an operation on it.
use igra_foundry_sdk.Prelude.{
  ℕ, ◌≡◌, refl, sym, subst, Bool, true, Option, none, some, Result, ok, err, List, find, Table, inl,
  inr, Rows, Rows-find, Rows-delete_where, upsert-Unique, delete_where-Unique, delete_where,
}
use igra_foundry_sdk.Prelude.Text.{Text}
use igra_foundry_sdk.Prelude.Words.{ℤ}
use igra_foundry_sdk.Store.Types.{IgraStoreError, TxMapRecord}
use igra_foundry_sdk.Store.Db.{after, statement, Db, TxRow, Faults, no_faults, exec, empty_db}
use igra_foundry_sdk.Store.Lock.{
  try_acquire_sender_lock_once, try_acquire_sender_lock_and_classify_once, release_sender_lock,
}
use igra_foundry_sdk.Store.Nonce.{classify_nonce, mark_submitted_in_order_nonce}
use igra_foundry_sdk.Store.Lifecycle.{IgraStore, persist_transition, decode_row, record_of, load_tx}
use igra_foundry_sdk.Store.Profile.{reconcile_profile_cache, migrate}
use igra_foundry_sdk.Store.Prune.{
  delete_expired, expired, delete_hashes, oldest, prune_cache, completed_states, failed_states,
}
use igra_foundry_sdk.Store.Prune.Induction.{prune_cache-Keeps}
use igra_foundry_sdk.Store.Operation.{
  Operation, try_lock, try_classify, release, classify, mark, persist, load, set_version, reconcile,
  run, run-Atomic, done, took, ordered, ordered_if_free, loaded,
}
use igra_foundry_sdk.Store.Atomic.{whole, nothing}
use igra_foundry_sdk.Store.Tables.{
  IsReadable, IsDb, empty_db-IsDb, delete_lease-IsDb, write_row-IsDb,
}
use igra_foundry_sdk.Store.Operation.{Fits}
use igra_foundry_sdk.Store.Operation.View.{view, Keeps}
use igra_foundry_sdk.Store.Operation.Refine.{run-Keeps}
use igra_foundry_sdk.Prelude.{◌⊎◌}
use igra_foundry_sdk.Store.Types.{SqliteFailure, sqlite}
use igra_foundry_sdk.Store.Tables.Commits.{
  transaction-IsDb, answer-IsDb, marked-IsDb, classify_in_tx-Commits, Commits-bare, take_if-Commits,
  classify_if-Commits, clear_if-Commits,
}

run_whole-IsDb :
    (store : IgraStore) (op : Operation) (db : Db)
    → Fits op
    → IsDb db
    → IsDb (run store no_faults op db).1
unfolding run exec try_acquire_sender_lock_once try_acquire_sender_lock_and_classify_once
    release_sender_lock classify_nonce mark_submitted_in_order_nonce persist_transition migrate
    after statement reconcile_profile_cache
run_whole-IsDb store (try_lock sender owner_id now lease_ms) db t h =
    answer-IsDb took _
      (transaction-IsDb db _ h (take_if-Commits _ db sender owner_id now lease_ms h))
run_whole-IsDb store (try_classify sender owner_id nonce hash now lease_ms) db t h =
    answer-IsDb ordered_if_free _
      (transaction-IsDb db _ h (classify_if-Commits _ db sender owner_id nonce hash now lease_ms h))
run_whole-IsDb store (release sender owner_id) db t h =
    answer-IsDb (λ _. done) _ (transaction-IsDb db _ h (delete_lease-IsDb sender owner_id db h))
run_whole-IsDb store (classify sender nonce now) db t h =
    answer-IsDb ordered _ (
      transaction-IsDb db _ h
        (Commits-bare _ (classify_in_tx-Commits 2 db sender nonce none now h)))
run_whole-IsDb store (mark sender nonce now) db t h =
    answer-IsDb (λ _. done) _ (marked-IsDb db sender nonce now h)
run_whole-IsDb store (persist update now) db t h =
    answer-IsDb (λ _. done) _ (transaction-IsDb db _ h (write_row-IsDb store db update now t h))
run_whole-IsDb store (load hash) db t h = answer-IsDb loaded _ h
run_whole-IsDb store set_version db t h =
    answer-IsDb (λ _. done) (migrate no_faults db)
      (record {
        meta = upsert-Unique _ _ db.schema_meta h.meta;
        tx = h.tx;
        nonces = h.nonces;
        locks = h.locks;
        rows = h.rows;
      })
run_whole-IsDb store reconcile db t h =
    answer-IsDb (λ _. done) _ (transaction-IsDb db _ h (clear_if-Commits _ store db h))

run-IsDb :
    (store : IgraStore) (faults : Faults) (op : Operation) (db : Db)
    → Fits op
    → IsDb db
    → IsDb (run store faults op db).1
run-IsDb store faults op db t h = elim (run-Atomic store faults op db) [
  | whole e ↦ subst (λ o. IsDb o.1) (sym e) (run_whole-IsDb store op db t h)
  | nothing f e ↦ subst (λ o. IsDb o.1) (sym e) h
]

delete_rows-IsDb :
    (p : Text → TxRow → Bool) (db : Db)
    → IsDb db
    → IsDb (record db { tx_map = delete_where p db.tx_map })
delete_rows-IsDb p db h = record {
  meta = h.meta;
  tx = delete_where-Unique p db.tx_map h.tx;
  nonces = h.nonces;
  locks = h.locks;
  rows = Rows-delete_where IsReadable p db.tx_map h.rows;
}

delete_expired-IsDb :
    (states : List Text) (limit : ℤ) (db : Db) → IsDb db → IsDb (delete_expired states limit db)
unfolding delete_expired
delete_expired-IsDb states limit db h = delete_rows-IsDb (expired states limit) db h

delete_hashes-IsDb : (hashes : List Text) (db : Db) → IsDb db → IsDb (delete_hashes hashes db)
unfolding delete_hashes
delete_hashes-IsDb hashes db h = delete_rows-IsDb _ db h

-- The tables after any sequence of operations and prunings by any number of stores on the one
-- file, each with its own profile, its own clock and its own failing statements.
pub data Reachable : Db → Type 0 where
  created : Reachable empty_db
  ran :
      {db : Db} (store : IgraStore) (faults : Faults) (op : Operation)
      → Fits op
      → Reachable db
      → Reachable (run store faults op db).1
  pruned :
      {db db' : Db} {r : Result IgraStoreError (Unit {0})} (fuel : ℕ) (store : IgraStore)
      (now size : ℕ) (sizes : ℕ → ℕ) (faults : Faults)
      → prune_cache fuel store now size sizes faults db ≡ some (r, db')
      → Reachable db
      → Reachable db'

-- Whatever operations and prunings have run, and whichever of their statements failed, every
-- table has its keys once, and every transaction row names a state that `parse` knows.
pub Reachable-IsDb : {db : Db} → Reachable db → IsDb db
Reachable-IsDb created = empty_db-IsDb
Reachable-IsDb (ran store faults op t r) = run-IsDb store faults op _ t (Reachable-IsDb r)
Reachable-IsDb (pruned fuel store now size sizes faults e r) =
    prune_cache-Keeps IsDb (delete_expired-IsDb completed_states)
      (delete_expired-IsDb failed_states) (λ d. delete_hashes-IsDb (oldest d.tx_map) d) fuel store
      now size sizes faults _ _ _ (Reachable-IsDb r) e

decode-IsReadable :
    (hash : Text) (row : TxRow)
    → IsReadable row
    → (r : TxMapRecord) × (decode_row hash (some row) ≡ ok (some r))
unfolding decode_row
decode-IsReadable hash row h = (record_of hash row h.state, rw (h.known, decode_row))

-- A record for a row, none for no row.
abbrev pub IsAnswer : Option TxRow → Result IgraStoreError (Option TxMapRecord) → Type 0
IsAnswer none answered = answered ≡ ok none
IsAnswer (some row) answered = (r : TxMapRecord) × (answered ≡ ok (some r))

decode-IsAnswer :
    (hash : Text) (rows : Table TxRow) (row : Option TxRow)
    → find hash rows ≡ row
    → Rows IsReadable rows
    → IsAnswer row (decode_row hash row)
unfolding decode_row
decode-IsAnswer hash rows none e h = refl
decode-IsAnswer hash rows (some row) e h =
    decode-IsReadable hash row (Rows-find IsReadable hash row rows h e)

-- On tables that operations and prunings have left, reading a hash never meets a row that it
-- cannot decode: when no statement fails, it answers a record when the hash has a row, and none
-- when it has no row.
pub load_tx-Reachable :
    {db : Db} (hash : Text)
    → Reachable db
    → IsAnswer (find hash db.tx_map) (load_tx true no_faults db hash)
unfolding load_tx exec
load_tx-Reachable {db} hash r =
    decode-IsAnswer hash db.tx_map (find hash db.tx_map) refl (Reachable-IsDb r).rows

-- The store refines its contract: on tables that operations and prunings have left, an operation
-- with `u64` nonces either answers and changes the abstract leases, nonces, transactions and
-- settings as `promise` says, a stale nonce being a replacement candidate exactly when some other
-- transaction has the sender and the nonce, or it answers a failure of SQLite and changes nothing.
pub run-Refines :
    {db : Db} (store : IgraStore) (faults : Faults) (op : Operation)
    → Reachable db
    → Fits op
    → let o = run store faults op db in
      (Keeps store op (view db) o.0 (view o.1) ⊎ ((f : SqliteFailure) × (o ≡ (err (sqlite f), db))))
run-Refines {db} store faults op r t =
    let h = Reachable-IsDb r in
    elim (run-Atomic store faults op db) [
      | whole e ↦ inl (
          subst (λ o. Keeps store op (view db) o.0 (view o.1)) (sym e)
            (run-Keeps store op db h.tx h.locks t))
      | nothing f e ↦ inr (f, e)
    ]
