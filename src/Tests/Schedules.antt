-- ===== src/Tests/Schedules.antt =====
-- crates/igra/src/store.rs: two tasks on one database file, step by step.
use mathlib.Core.List.{Memᴰ}
use igra_foundry_sdk.Prelude.{
  ℕ, Result, ◌≤◌, ◌≡◌, ◌≢◌, if◌then◌else◌, upsert, delete_where, false, ◌⊎◌, refl, true, none, some,
  [], ◌∷◌, ok, err, arith, find, ◌==◌,
}
use igra_foundry_sdk.Prelude.Text.{Text, codes, text_eq, option_text_eq, decimal}
use igra_foundry_sdk.Prelude.Words.{as_i64, as_u64, saturating_add, saturating_mul}
use igra_foundry_sdk.Store.Types.{
  IgraStoreError, NonceOrdering, SqliteFailure, database_busy, sqlite, in_order,
}
use igra_foundry_sdk.Store.Db.{Db, Faults, exec, transaction, empty_db, no_faults, after, statement}
use igra_foundry_sdk.Store.Lock.{
  Round, can_acquire, classify_if, write_lease, try_acquire_sender_lock_and_classify_once,
  acquire_sender_lock_and_classify_nonce, timeout_ms, classify_round,
}
use igra_foundry_sdk.Store.Nonce.{
  classify_nonce_in_tx, expected_nonce, classify_against, set_expected,
  mark_submitted_in_order_nonce, advance_expected,
}
use igra_foundry_sdk.Store.Nonce.Classification.{IsOrdering, map_ok}
use igra_foundry_sdk.Store.Lock.Granted.{
  try_classify-free, without, run_out, FreeBefore, now_free, free_later, IsDecided,
  free_round_decides,
}
use igra_foundry_sdk.Store.Atomic.{Atomic}
use igra_foundry_sdk.Store.Operation.{
  Operation, try_classify, mark, reconcile, ordered_if_free, run, run-Atomic,
}
use igra_foundry_sdk.Store.Operation.View.{view, is_other_profile, Keeps}
use igra_foundry_sdk.Store.Lifecycle.{load_tx}
use igra_foundry_sdk.Store.Tables.{IsDb}
use igra_foundry_sdk.Store.Tables.Reachable.{
  Reachable, created, ran, Reachable-IsDb, IsAnswer, load_tx-Reachable, run-Refines,
}
use igra_foundry_sdk.Store.Schedule.{Grant, System, wait, act, Reach, start, later, opened, has}
use igra_foundry_sdk.Store.Schedule as Schedule
use igra_foundry_sdk.Store.Profile.{
  reconcile_profile_cache, migrate, clear_if, write_profile, profile_changed, set_metadata_value,
  metadata_value, metadata_changed, differs,
}
use igra_foundry_sdk.Store.Schedule.Exclusive.{one_holder}
use igra_foundry_sdk.Store.Schedule.Once.{marked_never_in_order}
use igra_foundry_sdk.Tests.Rows.{galleon}

abbrev alice : Text
alice = codes "0xa1"

abbrev task : Text
task = codes "task"

abbrev rival : Text
rival = codes "rival"

abbrev hash : Text
hash = codes "0x01"

-- The fifth call of an operation meets a busy database.
abbrev busy_at_commit : Faults
busy_at_commit k =
    if k == 4 then some (record { code = database_busy; message = codes "busy" }) else none

abbrev locks_seven : Operation
locks_seven = try_classify alice task 7 hash 100 2000

abbrev marks_seven : Operation
marks_seven = mark alice 7 150

abbrev leased : Db
leased = (run galleon no_faults locks_seven empty_db).1

leased-Reachable : Reachable leased
leased-Reachable = ran galleon no_faults locks_seven (omega arith) created

run-Refines_example :
    let o = run galleon no_faults marks_seven leased in
    (Keeps galleon marks_seven (view leased) o.0 (view o.1)
      ⊎ ((f : SqliteFailure) × (o ≡ (err (sqlite f), leased))))
run-Refines_example = run-Refines galleon no_faults marks_seven leased-Reachable tt

run-Atomic_example :
    Atomic leased
      (run galleon busy_at_commit marks_seven leased)
      (run galleon no_faults marks_seven leased)
run-Atomic_example = run-Atomic galleon busy_at_commit marks_seven leased

Reachable-IsDb_example : IsDb leased
Reachable-IsDb_example = Reachable-IsDb leased-Reachable

load_tx-Reachable_example : IsAnswer (find hash leased.tx_map) (load_tx true no_faults leased hash)
load_tx-Reachable_example = load_tx-Reachable hash leased-Reachable

try_classify-free_example :
    (r : Result IgraStoreError NonceOrdering) × (IsOrdering empty_db alice 7 hash r
      × ((try_acquire_sender_lock_and_classify_once no_faults empty_db alice task 7 hash 100 2000).0
          ≡ map_ok some r))
unfolding find
try_classify-free_example = try_classify-free empty_db alice task 7 hash 100 2000 tt (without refl)

-- The rival finds the sender taken at 1500, and the lease run out at 2200.
abbrev round : ℕ → Round
round now = record { interference = λ db. db; now = now; faults = no_faults }

leased-FreeBefore :
    FreeBefore 1
      (saturating_add 1500 (timeout_ms 1))
      alice
      rival
      7
      hash
      (round 1500 ∷ round 2200 ∷ [])
      leased
unfolding find text_eq saturating_add timeout_ms saturating_mul as_i64 as_u64 classify_round run
    try_acquire_sender_lock_and_classify_once transaction exec classify_if can_acquire
    classify_nonce_in_tx expected_nonce classify_against set_expected write_lease upsert
leased-FreeBefore =
    free_later (round 1500) (round 2200 ∷ []) leased (omega arith)
      (now_free (round 2200) [] _ (omega arith) refl (run_out _ refl (omega arith)))

free_round_decides_example : IsDecided alice (
    acquire_sender_lock_and_classify_nonce 1 no_faults 1500
      (round 1500 ∷ round 2200 ∷ [])
      leased
      alice
      rival
      7
      hash)
free_round_decides_example =
    free_round_decides 1 no_faults 1500 (round 1500 ∷ round 2200 ∷ []) leased alice rival 7 hash
      leased-FreeBefore

-- The clock, and the system after the task has locked the sender, and after it has marked.
abbrev at_100 : System
at_100 = record (opened galleon) { now = 100 }

-- Another process opens the file with the same profile.
abbrev reopened : System
reopened = Schedule.ran at_100 reconcile (run galleon no_faults reconcile at_100.db)

same_profile : is_other_profile galleon (view at_100.db).meta ≡ false
unfolding run reconcile_profile_cache transaction exec profile_changed metadata_value
    metadata_changed differs clear_if write_profile set_metadata_value migrate after statement find
    upsert delete_where text_eq option_text_eq decimal
same_profile = refl

abbrev locked : System
locked = Schedule.ran reopened locks_seven (run galleon no_faults locks_seven reopened.db)

locked-Reach : Reach locked
locked-Reach =
    later
      (later (later (start galleon) (wait 100 (omega arith)))
        (act galleon no_faults reconcile tt same_profile))
      (act galleon no_faults locks_seven (omega arith) refl)

abbrev lease : Grant
lease = record { sender = alice; owner_id = task; until = saturating_add 100 2000 }

is_granted : Memᴰ lease locked.grants
unfolding run try_acquire_sender_lock_and_classify_once transaction exec classify_if can_acquire
    find classify_nonce_in_tx expected_nonce classify_against reconcile_profile_cache migrate
    option_text_eq upsert text_eq after statement clear_if write_profile profile_changed
    delete_where set_metadata_value decimal
is_granted = Memᴰ.head refl

is_live : locked.now ≤ lease.until
unfolding saturating_add
is_live = omega arith

one_holder_example : lease.owner_id ≡ lease.owner_id
one_holder_example = one_holder lease lease locked-Reach is_granted is_granted is_live is_live refl

is_ordered : has alice 7 locked.ordered ≡ true
unfolding run try_acquire_sender_lock_and_classify_once transaction exec classify_if can_acquire
    find classify_nonce_in_tx expected_nonce classify_against text_eq reconcile_profile_cache
    migrate option_text_eq upsert after statement clear_if write_profile profile_changed
    delete_where set_metadata_value decimal
is_ordered = refl

abbrev finished : System
finished = Schedule.ran locked marks_seven (run galleon no_faults marks_seven locked.db)

finished-Reach : Reach finished
finished-Reach = later locked-Reach (act galleon no_faults marks_seven tt is_ordered)

is_marked : has alice 7 finished.marked ≡ true
unfolding run try_acquire_sender_lock_and_classify_once transaction exec classify_if can_acquire
    find classify_nonce_in_tx expected_nonce classify_against set_expected
    mark_submitted_in_order_nonce advance_expected text_eq write_lease upsert as_u64 as_i64
    reconcile_profile_cache migrate option_text_eq after statement clear_if write_profile
    profile_changed delete_where set_metadata_value decimal
is_marked = refl

marked_never_in_order_example :
    (run galleon no_faults (try_classify alice rival 7 (codes "0x02") 9000 2000) finished.db).0
    ≢ ok (ordered_if_free (some (in_order 7)))
marked_never_in_order_example =
    marked_never_in_order galleon no_faults alice rival 7 (codes "0x02") 9000 2000 7 finished-Reach
      is_marked (omega arith)
