-- ===== src/Store/Operation.antt =====
-- crates/igra/src/store.rs: the operations of the store that run in one transaction or one
-- statement, as values with one answer type, so that sequences of them can be written down.
pub mod View
pub mod Leases
pub mod Rows
pub mod Others
pub mod Orders
pub mod Refine
use igra_foundry_sdk.Prelude.{ℕ, ◌≤◌, Bool, true, Option, Result, ok, err, ap}
use igra_foundry_sdk.Prelude.Text.{Text}
use igra_foundry_sdk.Store.Types.{IgraStoreError, NonceOrdering, TxLifecycleUpdate, TxMapRecord}
use igra_foundry_sdk.Prelude.Words.{u64_max}
use igra_foundry_sdk.Store.Db.{Db, Faults, no_faults}
use igra_foundry_sdk.Store.Lock.{
  try_acquire_sender_lock_once, try_acquire_sender_lock_and_classify_once, release_sender_lock,
}
use igra_foundry_sdk.Store.Nonce.{classify_nonce, mark_submitted_in_order_nonce}
use igra_foundry_sdk.Store.Lifecycle.{IgraStore, persist_transition, load_tx}
use igra_foundry_sdk.Store.Profile.{reconcile_profile_cache, migrate}
use igra_foundry_sdk.Store.Atomic.{
  Agrees, same, failed, Atomic, whole, nothing, try_acquire-Atomic, try_classify-Atomic,
  release-Atomic, classify_nonce-Atomic, mark-Atomic, persist-Atomic, reconcile-Atomic,
  migrate-Atomic, load-Agrees,
}

-- The arguments are those of the functions, the clock's reading last but for the lease.
pub data Operation : Type 0 where
  try_lock : Text → Text → ℕ → ℕ → Operation
  try_classify : Text → Text → ℕ → Text → ℕ → ℕ → Operation
  release : Text → Text → Operation
  classify : Text → ℕ → ℕ → Operation
  mark : Text → ℕ → ℕ → Operation
  persist : TxLifecycleUpdate → ℕ → Operation
  load : Text → Operation
  set_version : Operation
  reconcile : Operation

-- The nonces of an operation are `u64`s, and so is the clock when it creates a row.
abbrev pub Fits : Operation → Type 0
Fits (try_classify sender owner_id nonce l2_tx_hash now lease_ms) = nonce ≤ u64_max
Fits (classify sender nonce now) = nonce ≤ u64_max
Fits (persist update now) = now ≤ u64_max
Fits _ = Unit

pub data Answer : Type 0 where
  done : Answer
  took : Bool → Answer
  ordered : NonceOrdering → Answer
  ordered_if_free : Option NonceOrdering → Answer
  loaded : Option TxMapRecord → Answer

abbrev pub Outcome : Type 0
Outcome = Result IgraStoreError Answer × Db

abbrev pub answer : {A : Type 0} → (A → Answer) → Result IgraStoreError A × Db → Outcome
answer f (ok a, db) = (ok (f a), db)
answer f (err e, db) = (err e, db)

unfoldable pub run : IgraStore → Faults → Operation → Db → Outcome
run store faults (try_lock sender owner_id now lease_ms) db =
    answer took (try_acquire_sender_lock_once faults db sender owner_id now lease_ms)
run store faults (try_classify sender owner_id nonce l2_tx_hash now lease_ms) db =
    answer ordered_if_free (
      try_acquire_sender_lock_and_classify_once faults db sender owner_id nonce l2_tx_hash now
        lease_ms)
run store faults (release sender owner_id) db =
    answer (λ _. done) (release_sender_lock faults db sender owner_id)
run store faults (classify sender nonce now) db =
    answer ordered (classify_nonce faults db sender nonce now)
run store faults (mark sender nonce now) db =
    answer (λ _. done) (mark_submitted_in_order_nonce faults db sender nonce now)
run store faults (persist update now) db =
    answer (λ _. done) (persist_transition store faults db update now)
run store faults (load l2_tx_hash) db = answer loaded (load_tx true faults db l2_tx_hash, db)
run store faults set_version db = answer (λ _. done) (migrate faults db)
run store faults reconcile db = answer (λ _. done) (reconcile_profile_cache store faults db)

answer-Atomic :
    {A : Type 0} (f : A → Answer) (db : Db) (o o₀ : Result IgraStoreError A × Db)
    → Atomic db o o₀
    → Atomic db (answer f o) (answer f o₀)
answer-Atomic f db o o₀ (whole e) = whole (ap (answer f) e)
answer-Atomic f db o o₀ (nothing s e) = nothing s (ap (answer f) e)

Agrees-Atomic :
    {A : Type 0} (db : Db) (m m₀ : Result IgraStoreError A)
    → Agrees m m₀
    → Atomic db (m, db) (m₀, db)
Agrees-Atomic db m m₀ (same e) = whole (ap (λ r. (r, db)) e)
Agrees-Atomic db m m₀ (failed f e) = nothing f (ap (λ r. (r, db)) e)

-- Each of the operations of the store that are listed as `Operation` is all or nothing: whichever
-- of its calls on the connection fail, it either answers and changes the rows as it does when
-- none fails, or it answers a failure of SQLite and leaves every row as it was. Pruning, and the
-- opening of a store as a whole, are not among them.
pub run-Atomic :
    (store : IgraStore) (faults : Faults) (op : Operation) (db : Db)
    → Atomic db (run store faults op db) (run store no_faults op db)
unfolding run
run-Atomic store faults (try_lock sender owner_id now lease) db =
    answer-Atomic took db _ _ (try_acquire-Atomic faults db sender owner_id now lease)
run-Atomic store faults (try_classify sender owner_id nonce hash now lease) db =
    answer-Atomic ordered_if_free db _ _
      (try_classify-Atomic faults db sender owner_id nonce hash now lease)
run-Atomic store faults (release sender owner_id) db =
    answer-Atomic (λ _. done) db _ _ (release-Atomic faults db sender owner_id)
run-Atomic store faults (classify sender nonce now) db =
    answer-Atomic ordered db _ _ (classify_nonce-Atomic faults db sender nonce now)
run-Atomic store faults (mark sender nonce now) db =
    answer-Atomic (λ _. done) db _ _ (mark-Atomic faults db sender nonce now)
run-Atomic store faults (persist update now) db =
    answer-Atomic (λ _. done) db _ _ (persist-Atomic store faults db update now)
run-Atomic store faults (load hash) db =
    answer-Atomic loaded db _ _ (Agrees-Atomic db _ _ (load-Agrees true faults db hash))
run-Atomic store faults set_version db = answer-Atomic (λ _. done) db _ _ (migrate-Atomic faults db)
run-Atomic store faults reconcile db =
    answer-Atomic (λ _. done) db _ _ (reconcile-Atomic store faults db)
