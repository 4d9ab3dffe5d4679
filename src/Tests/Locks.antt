-- ===== src/Tests/Locks.antt =====
-- crates/igra/src/store.rs: the lease of a sender and its nonces, on small tables.
use igra_foundry_sdk.Prelude.{
  ℕ, Result, ◌+◌, ◌*◌, ◌≤◌, ◌≡◌, ◌≢◌, refl, true, false, some, [], ◌∷◌, ok, arith, find, Unique,
  if◌then◌else◌, ◌==◌,
}
use igra_foundry_sdk.Prelude.Text.{Text, codes, text_eq}
use igra_foundry_sdk.Prelude.Words.{pos, as_u64, u64_max, saturating_mul}
use igra_foundry_sdk.Store.Types.{IgraStoreError, NonceOrdering, in_order}
use igra_foundry_sdk.Store.Db.{Db, transaction, exec, LockRow, empty_db, no_faults}
use igra_foundry_sdk.Store.Lock.{
  Round, can_acquire, take_if, try_acquire_sender_lock_once,
  try_acquire_sender_lock_and_classify_once, acquire_sender_lock_and_classify_nonce, timeout_ms,
  classify_round, classify_if,
}
use igra_foundry_sdk.Store.Lock.Exclusion.{IsHeld, try_classify-IsHeld}
use igra_foundry_sdk.Store.Lock.Polling.{
  Returns, acquire_and_classify-Returns, contender_never_succeeds, lease_outlives_timeout,
}
use igra_foundry_sdk.Store.Nonce.{
  classify_nonce_in_tx, mark_submitted_in_order_nonce, expected_nonce, classify_against,
}
use igra_foundry_sdk.Store.Nonce.Classification.{
  expected, seen, classify_in_tx_lem, IsOrdering, map_ok,
}
use igra_foundry_sdk.Store.Nonce.Advance.{expected-mark}

abbrev alice : Text
alice = codes "0xa1"

abbrev task : Text
task = codes "task"

abbrev rival : Text
rival = codes "rival"

abbrev hash : Text
hash = codes "0x01"

abbrev lease : LockRow
lease = record { owner_id = rival; expires_at_ms = pos 5000; updated_at_ms = pos 100 }

-- The rival holds the sender, whose next nonce is 7.
abbrev tables : Db
tables = record empty_db {
  sender_nonce_state = (alice, record { next_expected_nonce = pos 7; updated_at_ms = pos 0 }) ∷ [];
  sender_locks = (alice, lease) ∷ [];
}

lease-IsHeld : IsHeld tables alice task 100
unfolding find text_eq as_u64
lease-IsHeld = record { row = lease; found = refl; other = refl; live = omega arith }

leased : find alice tables.sender_locks ≡ some lease
unfolding find text_eq
leased = refl

is_other : text_eq rival task ≡ false
unfolding text_eq
is_other = refl

tables_Unique : Unique tables.sender_locks
unfolding find
tables_Unique = (refl, tt)

late_lease : 100 + timeout_ms 1 ≤ as_u64 (pos 5000)
unfolding timeout_ms saturating_mul as_u64
late_lease = omega arith

no_wait : timeout_ms 0 + 25 ≤ 25 * 1
unfolding timeout_ms saturating_mul
no_wait = omega arith

try_classify-IsHeld_example :
    let r = try_acquire_sender_lock_and_classify_once no_faults tables alice task 7 hash 100 2000 in
    (r.1 ≡ tables) × (r.0 ≢ ok (some (in_order 7)))
try_classify-IsHeld_example =
    try_classify-IsHeld no_faults tables alice task 7 hash 100 2000 (in_order 7) lease-IsHeld

acquires : (try_acquire_sender_lock_once no_faults empty_db alice task 100 2000).0 ≡ ok true
unfolding try_acquire_sender_lock_once transaction exec take_if can_acquire find
acquires = refl

-- A round of the polling loop at the clock's reading `now`.
abbrev round : ℕ → Round
round now = record { interference = λ db. db; now = now; faults = no_faults }

acquire_and_classify-Returns_example :
    Returns
      (acquire_sender_lock_and_classify_nonce 0 no_faults 0 (round 0 ∷ []) tables alice task 7 hash)
acquire_and_classify-Returns_example =
    acquire_and_classify-Returns 0 no_faults 0 (round 0 ∷ []) tables alice task 7 hash (omega arith)
      (omega arith, tt) no_wait

contender_never_succeeds_example :
    acquire_sender_lock_and_classify_nonce 1 no_faults 100
      (round 100 ∷ round 1200 ∷ [])
      tables
      alice
      task
      7
      hash
    ≢ some (ok (in_order 7), tables)
contender_never_succeeds_example =
    contender_never_succeeds 1 no_faults 100 (round 100 ∷ round 1200 ∷ []) tables tables alice task
      7 hash lease (in_order 7) leased is_other late_lease ((λ db. refl), ((λ db. refl), tt))

-- The rival is given the sender at 1000.
abbrev given : Db
given = (classify_round 1 alice rival 7 hash (round 1000) empty_db).1

is_given :
    classify_round 1 alice rival 7 hash (round 1000) empty_db ≡ (ok (some (in_order 7)), given)
unfolding classify_round try_acquire_sender_lock_and_classify_once transaction exec classify_if
    can_acquire find classify_nonce_in_tx expected_nonce classify_against
is_given = refl

has_room : 1000 + 2 * timeout_ms 1 ≤ u64_max
unfolding timeout_ms saturating_mul
has_room = omega arith

starts_soon : 1500 ≤ 1000 + timeout_ms 1
unfolding timeout_ms saturating_mul
starts_soon = omega arith

lease_outlives_timeout_example :
    acquire_sender_lock_and_classify_nonce 1 no_faults 1500
      (round 1600 ∷ [])
      given
      alice
      task
      7
      hash
    ≢ some (ok (in_order 7), given)
lease_outlives_timeout_example =
    lease_outlives_timeout 1 (round 1000) no_faults 1500 (round 1600 ∷ []) empty_db given given
      alice rival task 7 7 hash hash (in_order 7) (in_order 7) is_given is_other has_room
      starts_soon ((λ db. refl), tt)

classify_in_tx_lem_example :
    (r : Result IgraStoreError NonceOrdering) × (IsOrdering tables alice 9 hash r
      × (classify_nonce_in_tx no_faults 4 tables alice 9 (some hash) 100
          ≡ map_ok (λ o. (o, seen (find alice tables.sender_nonce_state) tables alice 9 100)) r))
classify_in_tx_lem_example = classify_in_tx_lem 4 tables alice 9 100 hash tt

expected-mark_example :
    expected (mark_submitted_in_order_nonce no_faults tables alice 7 100).1 alice 0 ≡ (
      if text_eq alice alice
      then (if 7 == expected tables alice 7 then 7 + 1 else expected tables alice 0)
      else expected tables alice 0)
expected-mark_example = expected-mark tables alice alice 7 100 0 (omega arith)
