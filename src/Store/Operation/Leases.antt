-- ===== src/Store/Operation/Leases.antt =====
-- crates/igra/src/store.rs: leases on the tables against leases in the view.
use igra_foundry_sdk.Prelude.{
  ℕ, ◌≤◌, ◌≡◌, refl, ap, ◌∙◌, true, false, ◌&&◌, Option, none, some, ok, if◌then◌else◌, find,
  Unique, arith, unless, find-delete_where, Bool-cases, inl, inr,
}
use igra_foundry_sdk.Prelude.Text.{Text, text_eq, text_eq_iff}
use igra_foundry_sdk.Prelude.Words.{as_i64, as_u64-as_i64, saturating_add, u64_max}
use igra_foundry_sdk.Store.Db.{Db, LockRow, no_faults, exec, transaction}
use igra_foundry_sdk.Store.Lock.{
  can_acquire, write_lease, delete_lease, take_if, try_acquire_sender_lock_once,
  release_sender_lock,
}
use igra_foundry_sdk.Store.Lifecycle.{IgraStore, map_option}
use igra_foundry_sdk.Store.Operation.{try_lock, release, done, took, run}
use igra_foundry_sdk.Store.Operation.View.{
  view, lease_of, put, is_free, take_lease, unless_held, promise,
}
use igra_foundry_sdk.Store.Operation.View.{find-put, shown}

sum_fits : (a b : ℕ) → saturating_add a b ≤ u64_max
unfolding saturating_add
sum_fits a b = omega arith

pub view-write_lease :
    (db : Db) (sender owner_id : Text) (now lease_ms : ℕ)
    → view (write_lease db sender owner_id now lease_ms)
      ≡ take_lease (view db) sender owner_id now lease_ms
unfolding write_lease
view-write_lease db sender owner_id now lease_ms =
    let held : LockRow = record {
      owner_id = owner_id;
      expires_at_ms = as_i64 (saturating_add now lease_ms);
      updated_at_ms = as_i64 now;
    } in
    let until = as_u64-as_i64 (saturating_add now lease_ms) (sum_fits now lease_ms) in
    λ i. record (view db) {
      lease = λ s.
          ((find-put lease_of sender held db.sender_locks s)
              ∙ ap (λ u. put sender (record { holder = owner_id; until = u }) (view db).lease s)
                  until)
            i;
    }

pub is_free-lease_of :
    (row : Option LockRow) (owner_id : Text) (now : ℕ)
    → can_acquire row owner_id now ≡ is_free (map_option lease_of row) owner_id now
unfolding can_acquire
is_free-lease_of none owner_id now = refl
is_free-lease_of (some row) owner_id now = refl

pub try_lock-kept :
    (store : IgraStore) (db : Db) (sender owner_id : Text) (now lease_ms : ℕ)
    → shown (run store no_faults (try_lock sender owner_id now lease_ms) db)
      ≡ promise store false (try_lock sender owner_id now lease_ms) (view db)
unfolding run try_acquire_sender_lock_once transaction exec take_if
try_lock-kept store db sender owner_id now lease_ms =
    rw (← is_free-lease_of (find sender db.sender_locks) owner_id now)
      (elim (Bool-cases (can_acquire (find sender db.sender_locks) owner_id now)) [
        | inl e ↦
            rw e (ap (λ v. (ok (took true), v)) (view-write_lease db sender owner_id now lease_ms))
        | inr e ↦ rw e
      ])

unless-lease_of :
    (sender owner_id s : Text) (row : Option LockRow)
    → map_option lease_of
        (unless (λ j (r : LockRow). text_eq j sender && text_eq r.owner_id owner_id) s row)
      ≡ (if text_eq sender s
          then unless_held owner_id (map_option lease_of row)
          else map_option lease_of row)
unless-lease_of sender owner_id s none = ground (arith, text_eq_iff s sender, text_eq_iff sender s)
unless-lease_of sender owner_id s (some row) =
    ground (arith, text_eq_iff s sender, text_eq_iff sender s)

lease-released :
    (db : Db) (sender owner_id s : Text)
    → Unique db.sender_locks
    → (view (delete_lease sender owner_id db)).lease s
      ≡ (if text_eq sender s then unless_held owner_id ((view db).lease s) else (view db).lease s)
unfolding delete_lease
lease-released db sender owner_id s u =
    ap (map_option lease_of) (find-delete_where _ s db.sender_locks u)
    ∙ unless-lease_of sender owner_id s (find s db.sender_locks)

pub release-kept :
    (store : IgraStore) (db : Db) (sender owner_id : Text)
    → Unique db.sender_locks
    → shown (run store no_faults (release sender owner_id) db)
      ≡ promise store false (release sender owner_id) (view db)
unfolding run release_sender_lock transaction exec delete_lease
release-kept store db sender owner_id u =
    λ i. (ok done, record (view db) { lease = λ s. lease-released db sender owner_id s u i })
