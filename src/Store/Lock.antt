-- ===== src/Store/Lock.antt =====
-- crates/igra/src/store.rs: the lease on a sender, `acquire_sender_lock`,
-- `acquire_sender_lock_and_classify_nonce` and `release_sender_lock`.
pub mod Exclusion
pub mod Polling
pub mod Granted
pub mod InOrder
use igra_foundry_sdk.Prelude.{
  ℕ, Bool, true, false, ◌&&◌, ◌||◌, Option, none, some, List, [], ◌∷◌, Result, ok, err, ◌>>=◌, ◌>>◌,
  ltb, leb, if◌then◌else◌, find, upsert, delete_where,
}
use igra_foundry_sdk.Prelude.Text.{Text, text_eq}
use igra_foundry_sdk.Prelude.Words.{as_i64, as_u64, saturating_add, saturating_mul}
use igra_foundry_sdk.Store.Types.{
  IgraStoreError, lock_timeout, is_retryable_busy_error, NonceOrdering,
}
use igra_foundry_sdk.Store.Db.{Db, LockRow, Faults, exec, transaction}
use igra_foundry_sdk.Store.Nonce.{classify_nonce_in_tx}

-- A free sender, the owner itself, or a lease that has run out.
unfoldable pub can_acquire : Option LockRow → Text → ℕ → Bool
can_acquire none owner_id now = true
can_acquire (some row) owner_id now =
    text_eq row.owner_id owner_id || ltb (as_u64 row.expires_at_ms) now

-- INSERT INTO sender_locks ... ON CONFLICT(sender) DO UPDATE
unfoldable pub write_lease : Db → Text → Text → ℕ → ℕ → Db
write_lease db sender owner_id now lease_ms = record db {
  sender_locks =
      upsert sender
        (record {
          owner_id = owner_id;
          expires_at_ms = as_i64 (saturating_add now lease_ms);
          updated_at_ms = as_i64 now;
        })
        db.sender_locks;
}

-- BEGIN IMMEDIATE is call 1, the SELECT 2, the INSERT 3, COMMIT 4.
unfoldable pub take_if : Bool → Faults → Db → Text → Text → ℕ → ℕ → Result IgraStoreError Db
unfolding write_lease
take_if true faults db sender owner_id now lease_ms = do
  exec faults 3
  ok (write_lease db sender owner_id now lease_ms)
take_if false faults db sender owner_id now lease_ms = ok db

unfoldable pub try_acquire_sender_lock_once :
    Faults → Db → Text → Text → ℕ → ℕ → Result IgraStoreError Bool × Db
unfolding take_if
try_acquire_sender_lock_once faults db sender owner_id now lease_ms = transaction db do
  exec faults 1
  exec faults 2
  let free = can_acquire (find sender db.sender_locks) owner_id now
  db' ← take_if free faults db sender owner_id now lease_ms
  exec faults 4
  ok (free, db')

-- The same with a classification under the lock: calls 4, 5 and 6, and COMMIT 7. A sender that is
-- taken commits nothing.
unfoldable pub classify_if :
    Bool
    → Faults
    → Db
    → Text
    → Text
    → ℕ
    → Text
    → ℕ
    → ℕ
    → Result IgraStoreError (Option NonceOrdering × Db)
unfolding write_lease
classify_if false faults db sender owner_id nonce l2_tx_hash now lease_ms = do
  exec faults 7
  ok (none, db)
classify_if true faults db sender owner_id nonce l2_tx_hash now lease_ms = do
  exec faults 3
  (ordering, db') ←
      classify_nonce_in_tx faults 4 (write_lease db sender owner_id now lease_ms) sender nonce
        (some l2_tx_hash) now
  exec faults 7
  ok (some ordering, db')

unfoldable pub try_acquire_sender_lock_and_classify_once :
    Faults → Db → Text → Text → ℕ → Text → ℕ → ℕ → Result IgraStoreError (Option NonceOrdering) × Db
unfolding classify_if
try_acquire_sender_lock_and_classify_once faults db sender owner_id nonce l2_tx_hash now lease_ms =
    transaction db do
      exec faults 1
      exec faults 2
      classify_if (can_acquire (find sender db.sender_locks) owner_id now) faults db sender owner_id
          nonce l2_tx_hash now lease_ms

-- One round of the polling loop as the outside sees it: what other connections did to the tables
-- since the last round, the reading of the clock, and the outcome of the round's statements.
pub record Round : Type 0 where
  pub interference : Db → Db
  pub now : ℕ
  pub faults : Faults

-- What the loop does with an attempt: return, or sleep and go round again. `none` means that the
-- list of rounds ended first.
pub settle :
    {A : Type 0}
    → Result IgraStoreError (Option A) × Db
    → (Db → Option (Result IgraStoreError A × Db))
    → Option (Result IgraStoreError A × Db)
settle (ok (some a), db) again = some (ok a, db)
settle (ok none, db) again = again db
settle (err e, db) again = if is_retryable_busy_error e then again db else some (err e, db)

pub poll :
    {A : Type 0}
    → (Round → Db → Result IgraStoreError (Option A) × Db)
    → Text
    → ℕ
    → List Round
    → Db
    → Option (Result IgraStoreError A × Db)
unfolding settle
poll attempt sender deadline_ms [] db = none
poll attempt sender deadline_ms (round ∷ rounds) db =
    let db' = round.interference db in
    if leb deadline_ms round.now
    then some (err (lock_timeout sender), db')
    else settle (attempt round db') (poll attempt sender deadline_ms rounds)

-- `Ok(true) => return Ok(())`, `Ok(false) => {}`
pub acquired : Result IgraStoreError Bool × Db → Result IgraStoreError (Option (Unit {0})) × Db
acquired (ok true, db) = (ok (some tt), db)
acquired (ok false, db) = (ok none, db)
acquired (err e, db) = (err e, db)

unfoldable pub timeout_ms : ℕ → ℕ
timeout_ms sender_lock_timeout_secs = saturating_mul sender_lock_timeout_secs 1000

pub lease_ms : ℕ → ℕ
unfolding timeout_ms
lease_ms secs = saturating_mul (timeout_ms secs) 2

-- The body of one round of each loop.
lock_round : ℕ → Text → Text → Round → Db → Result IgraStoreError (Option (Unit {0})) × Db
unfolding acquired lease_ms try_acquire_sender_lock_once
lock_round secs sender owner_id round db =
    acquired
      (try_acquire_sender_lock_once round.faults db sender owner_id round.now (lease_ms secs))

unfoldable pub classify_round :
    ℕ → Text → Text → ℕ → Text → Round → Db → Result IgraStoreError (Option NonceOrdering) × Db
unfolding lease_ms try_acquire_sender_lock_and_classify_once
classify_round secs sender owner_id nonce l2_tx_hash round db =
    try_acquire_sender_lock_and_classify_once round.faults db sender owner_id nonce l2_tx_hash
      round.now (lease_ms secs)

-- Opening the connection is call 0 of `opening`; `start` is the clock when the deadline is set.
unfoldable pub acquire_sender_lock :
    ℕ → Faults → ℕ → List Round → Db → Text → Text → Option (Result IgraStoreError (Unit {0}) × Db)
unfolding poll lock_round
acquire_sender_lock secs opening start rounds db sender owner_id = elim (exec opening 0) [
  | err e ↦ some (err e, db)
  | ok _ ↦
      poll (lock_round secs sender owner_id) sender (saturating_add start (timeout_ms secs)) rounds
        db
]

unfoldable pub acquire_sender_lock_and_classify_nonce :
    ℕ
    → Faults
    → ℕ
    → List Round
    → Db
    → Text
    → Text
    → ℕ
    → Text
    → Option (Result IgraStoreError NonceOrdering × Db)
unfolding poll classify_round
acquire_sender_lock_and_classify_nonce secs opening start rounds db sender owner_id nonce
      l2_tx_hash =
    elim (exec opening 0) [
      | err e ↦ some (err e, db)
      | ok _ ↦
          poll (classify_round secs sender owner_id nonce l2_tx_hash) sender
            (saturating_add start (timeout_ms secs)) rounds db
    ]

-- DELETE FROM sender_locks WHERE sender = ?1 AND owner_id = ?2
unfoldable pub delete_lease : Text → Text → Db → Db
delete_lease sender owner_id db = record db {
  sender_locks =
      delete_where (λ k (row : LockRow). text_eq k sender && text_eq row.owner_id owner_id)
        db.sender_locks;
}

-- Opening the connection is call 0, the DELETE call 1; no transaction is open.
unfoldable pub release_sender_lock :
    Faults → Db → Text → Text → Result IgraStoreError (Unit {0}) × Db
unfolding delete_lease
release_sender_lock faults db sender owner_id =
    transaction db do exec faults 0; exec faults 1; ok (tt, delete_lease sender owner_id db)
