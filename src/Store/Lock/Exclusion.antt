-- ===== src/Store/Lock/Exclusion.antt =====
-- crates/igra/src/store.rs: single attempts to lock a sender, and the release.
use igra_foundry_sdk.Prelude.{
  ℕ, ◌≤◌, ◌≡◌, ◌≢◌, refl, true, false, ◌&&◌, some, ok, arith, find, find-upsert, Unique, unless,
  find-delete_where,
}
use igra_foundry_sdk.Prelude.Text.{Text, text_eq, text_eq_iff, text_eq_refl}
use igra_foundry_sdk.Prelude.Words.{as_i64, as_u64, saturating_add}
use igra_foundry_sdk.Store.Types.{NonceOrdering}
use igra_foundry_sdk.Store.Db.{Db, LockRow, Faults, no_faults, exec, transaction}
use igra_foundry_sdk.Store.Lock.{
  can_acquire, write_lease, try_acquire_sender_lock_once, classify_if,
  try_acquire_sender_lock_and_classify_once, release_sender_lock,
}

-- Somebody else holds the sender, and the lease has not run out.
pub record IsHeld (db : Db) (sender owner_id : Text) (now : ℕ) : Type 0 where
  pub row : LockRow
  pub found : find sender db.sender_locks ≡ some row
  pub other : text_eq row.owner_id owner_id ≡ false
  pub live : now ≤ as_u64 row.expires_at_ms

can_acquire-IsHeld :
    (db : Db) (sender owner_id : Text) (now : ℕ)
    → IsHeld db sender owner_id now
    → can_acquire (find sender db.sender_locks) owner_id now ≡ false
unfolding can_acquire
can_acquire-IsHeld db sender owner_id now h = rw h.found (ground (arith, h.other, h.live))

try_acquire-IsHeld :
    (faults : Faults) (db : Db) (sender owner_id : Text) (now lease : ℕ)
    → IsHeld db sender owner_id now
    → ((try_acquire_sender_lock_once faults db sender owner_id now lease).1 ≡ db)
      × ((try_acquire_sender_lock_once faults db sender owner_id now lease).0 ≢ ok true)
unfolding try_acquire_sender_lock_once transaction exec
try_acquire-IsHeld faults db sender owner_id now lease h =
    ground (arith, can_acquire-IsHeld db sender owner_id now h)

-- While the lease of another owner is alive, an attempt to lock and classify changes no table and
-- answers no ordering, whichever of its statements fail.
pub try_classify-IsHeld :
    (faults : Faults) (db : Db) (sender owner_id : Text) (nonce : ℕ) (hash : Text) (now lease : ℕ)
    (o : NonceOrdering)
    → IsHeld db sender owner_id now
    → let r =
        try_acquire_sender_lock_and_classify_once faults db sender owner_id nonce hash now lease in
      (r.1 ≡ db) × (r.0 ≢ ok (some o))
unfolding try_acquire_sender_lock_and_classify_once transaction exec classify_if
try_classify-IsHeld faults db sender owner_id nonce hash now lease o h =
    rw (can_acquire-IsHeld db sender owner_id now h) (ground arith)

-- After an attempt that succeeds the sender is leased to the caller for the given number of
-- milliseconds, whoever held it before.
acquired_lease :
    (faults : Faults) (db : Db) (sender owner_id : Text) (now lease : ℕ)
    → (try_acquire_sender_lock_once faults db sender owner_id now lease).0 ≡ ok true
    → find sender (try_acquire_sender_lock_once faults db sender owner_id now lease).1.sender_locks
      ≡ some (record {
        owner_id = owner_id;
        expires_at_ms = as_i64 (saturating_add now lease);
        updated_at_ms = as_i64 now;
      })
unfolding try_acquire_sender_lock_once transaction exec write_lease
acquired_lease faults db sender owner_id now lease h = ground (
  arith,
  text_eq_refl sender,
  find-upsert sender sender
      (record {
        owner_id = owner_id;
        expires_at_ms = as_i64 (saturating_add now lease);
        updated_at_ms = as_i64 now;
      })
      db.sender_locks,
)

-- A release whose statements all succeed takes the lease of its owner away, and touches no other
-- lease: neither another sender's nor one that another owner has taken over meanwhile.
pub release_lem :
    (db : Db) (sender owner_id k : Text)
    → Unique db.sender_locks
    → let r = release_sender_lock no_faults db sender owner_id in
      (r.0 ≡ ok tt)
      × (find k r.1.sender_locks
          ≡ unless
              (λ j (row : LockRow). text_eq j sender && text_eq row.owner_id owner_id)
              k
              (find k db.sender_locks))
unfolding release_sender_lock transaction exec
release_lem db sender owner_id k u = (refl, find-delete_where _ k db.sender_locks u)

-- After the holder of a lease has released it, any owner takes the sender at the first attempt,
-- at any clock, when no statement fails.
release_then_acquire :
    (db : Db) (row : LockRow) (sender owner_id other : Text) (now lease : ℕ)
    → Unique db.sender_locks
    → find sender db.sender_locks ≡ some row
    → row.owner_id ≡ owner_id
    → (try_acquire_sender_lock_once no_faults
        (release_sender_lock no_faults db sender owner_id).1
        sender
        other
        now
        lease).0
      ≡ ok true
unfolding try_acquire_sender_lock_once transaction exec can_acquire
release_then_acquire db row sender owner_id other now lease u held own = ground (
  arith,
  release_lem db sender owner_id sender u,
  text_eq_refl sender,
  text_eq_iff row.owner_id owner_id,
)
