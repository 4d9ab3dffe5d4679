-- ===== src/Store/Lock/Polling.antt =====
-- crates/igra/src/store.rs: the polling loop of the two `acquire_sender_lock` functions, its end
-- and its contenders.
use igra_foundry_sdk.Prelude.{
  ℕ, ◌+◌, ◌*◌, ◌≤◌, ◌<◌, ◌≡◌, ◌≢◌, ◌∙◌, refl, false, leb, Option, none, some, Result, ok, err,
  arith, List, [], ◌∷◌, length, find, find-upsert, Bool-cases, Option-cases, inl, inr,
}
use igra_foundry_sdk.Prelude.Text.{Text, text_eq, text_eq_refl}
use igra_foundry_sdk.Prelude.Words.{
  as_i64, as_u64, as_u64-as_i64, saturating_add, saturating_mul, u64_max,
}
use igra_foundry_sdk.Store.Types.{
  IgraStoreError, lock_timeout, sqlite, NonceOrdering, in_order, is_retryable_busy_error,
}
use igra_foundry_sdk.Store.Db.{Db, LockRow, Faults, exec, transaction}
use igra_foundry_sdk.Store.Nonce.{
  classify_nonce_in_tx, expected_nonce, set_expected, classify_against,
}
use igra_foundry_sdk.Store.Lock.{
  Round, settle, poll, timeout_ms, lease_ms, classify_round, acquire_sender_lock_and_classify_nonce,
  write_lease, classify_if, try_acquire_sender_lock_and_classify_once,
}
use igra_foundry_sdk.Store.Lock.Exclusion.{IsHeld, try_classify-IsHeld}

abbrev lock_poll_interval_ms : ℕ
lock_poll_interval_ms = 25

-- `thread::sleep` lets at least the interval pass between two rounds.
abbrev Paced : ℕ → List Round → Type 0
Paced t [] = Unit
Paced t (r ∷ rs) = (t ≤ r.now) × Paced (r.now + lock_poll_interval_ms) rs

abbrev pub Returns : {A : Type 0} → Option (Result IgraStoreError A × Db) → Type 0
Returns {A} o = (r : Result IgraStoreError A × Db) × (o ≡ some r)

settle-Returns :
    {A : Type 0} (r : Result IgraStoreError (Option A) × Db)
    (again : Db → Option (Result IgraStoreError A × Db))
    → ((db : Db) → Returns (again db))
    → Returns (settle r again)
unfolding settle
settle-Returns (ok (some a), db) again h = ((ok a, db), refl)
settle-Returns (ok none, db) again h = h db
settle-Returns (err e, db) again h = elim (Bool-cases (is_retryable_busy_error e)) [
  | inl busy ↦ rw busy (h db)
  | inr fatal ↦ rw fatal ((err e, db), refl)
]

poll-Returns :
    {A : Type 0} (attempt : Round → Db → Result IgraStoreError (Option A) × Db) (sender : Text)
    (deadline t : ℕ) (rounds : List Round) (db : Db)
    → Paced t rounds
    → deadline + lock_poll_interval_ms ≤ t + lock_poll_interval_ms * length rounds
    → t < deadline + lock_poll_interval_ms
    → Returns (poll attempt sender deadline rounds db)
unfolding poll
poll-Returns attempt sender deadline t [] db p h n = absurd (omega arith)
poll-Returns attempt sender deadline t (r ∷ rs) db p h n = elim (Bool-cases (leb deadline r.now)) [
  | inl late ↦ rw late ((err (lock_timeout sender), r.interference db), refl)
  | inr early ↦ rw early (
      settle-Returns (attempt r (r.interference db)) _ (λ db'.
        poll-Returns attempt sender deadline (r.now + lock_poll_interval_ms) rs db' p.1
          (ground arith) (ground arith)))
]

saturating_add-le : (a b : ℕ) → saturating_add a b ≤ a + b
unfolding saturating_add
saturating_add-le a b = omega arith

le-saturating_add : (a b : ℕ) → a ≤ u64_max → a ≤ saturating_add a b
unfolding saturating_add
le-saturating_add a b h = omega arith

-- The polling loop ends: at a clock that starts as a u64 and shows at least 25 ms more in each
-- round, timeout_ms / 25 + 1 rounds are enough, whatever the statements answer and whatever other
-- connections do in between.
pub acquire_and_classify-Returns :
    (secs : ℕ) (opening : Faults) (start : ℕ) (rounds : List Round) (db : Db)
    (sender owner_id : Text) (nonce : ℕ) (hash : Text)
    → start ≤ u64_max
    → Paced start rounds
    → timeout_ms secs + lock_poll_interval_ms ≤ lock_poll_interval_ms * length rounds
    → Returns (
        acquire_sender_lock_and_classify_nonce secs opening start rounds db sender owner_id nonce
          hash)
unfolding acquire_sender_lock_and_classify_nonce exec
acquire_and_classify-Returns secs opening start rounds db sender owner_id nonce hash u p h =
    elim (Option-cases (opening 0)) [
      | inl e ↦
          rw (e, acquire_sender_lock_and_classify_nonce)
            (poll-Returns (classify_round secs sender owner_id nonce hash) sender
              (saturating_add start (timeout_ms secs)) start rounds db p
              (omega (arith, saturating_add-le start (timeout_ms secs)))
              (omega (arith, le-saturating_add start (timeout_ms secs))))
      | inr (f, e) ↦ rw (e, acquire_sender_lock_and_classify_nonce) ((err (sqlite f), db), refl)
    ]

-- The rounds leave the lease of `sender` to whoever holds it.
abbrev KeepsLease : Text → List Round → Type 0
KeepsLease sender [] = Unit
KeepsLease sender (r ∷ rs) =
    ((db : Db) → find sender (r.interference db).sender_locks ≡ find sender db.sender_locks)
    × KeepsLease sender rs

settle-ne-ok :
    {A : Type 0} (r : Result IgraStoreError (Option A) × Db)
    (again : Db → Option (Result IgraStoreError A × Db)) (a : A) (db' : Db)
    → ((b : A) → r.0 ≢ ok (some b))
    → again r.1 ≢ some (ok a, db')
    → settle r again ≢ some (ok a, db')
unfolding settle
settle-ne-ok (ok (some b), db) again a db' no_ok rest = absurd (no_ok b refl)
settle-ne-ok (ok none, db) again a db' no_ok rest = rest
settle-ne-ok (err e, db) again a db' no_ok rest = elim (Bool-cases (is_retryable_busy_error e)) [
  | inl busy ↦ rw busy rest
  | inr fatal ↦ rw fatal (λ e'. cc)
]

-- No round of the loop returns what `attempt` may not return while the sender is held.
poll-IsHeld :
    {A : Type 0} (attempt : Round → Db → Result IgraStoreError (Option A) × Db)
    (sender owner_id : Text) (deadline : ℕ) (row : LockRow)
    → text_eq row.owner_id owner_id ≡ false
    → deadline ≤ as_u64 row.expires_at_ms
    → ((r : Round) (db : Db)
        → IsHeld db sender owner_id r.now
        → ((attempt r db).1 ≡ db) × ((a : A) → (attempt r db).0 ≢ ok (some a)))
    → (rounds : List Round) (db db' : Db) (a : A) → KeepsLease sender rounds
    → find sender db.sender_locks ≡ some row
    → poll attempt sender deadline rounds db ≢ some (ok a, db')
unfolding poll
poll-IsHeld attempt sender owner_id deadline row other live spec [] db db' a k found = λ e. cc
poll-IsHeld attempt sender owner_id deadline row other live spec (r ∷ rs) db db' a k found =
    elim (Bool-cases (leb deadline r.now)) [
      | inl late ↦ rw late (λ e. cc)
      | inr early ↦
          let db₁ = r.interference db in
          let found₁ : find sender db₁.sender_locks ≡ some row = k.0 db ∙ found in
          let held : IsHeld db₁ sender owner_id r.now = record {
            row = row;
            found = found₁;
            other = other;
            live = ground arith;
          } in
          let (same, no_ok) = spec r db₁ held in
          rw early (
            settle-ne-ok (attempt r db₁) _ a db' no_ok (
              rw same (
                poll-IsHeld attempt sender owner_id deadline row other live spec rs db₁ db' a k.1
                  found₁)))
    ]

classify_round-IsHeld :
    (secs : ℕ) (sender owner_id : Text) (nonce : ℕ) (hash : Text) (r : Round) (db : Db)
    → IsHeld db sender owner_id r.now
    → ((classify_round secs sender owner_id nonce hash r db).1 ≡ db)
      × ((a : NonceOrdering)
          → (classify_round secs sender owner_id nonce hash r db).0 ≢ ok (some a))
unfolding classify_round
classify_round-IsHeld secs sender owner_id nonce hash r db held = (
  (try_classify-IsHeld r.faults db sender owner_id nonce hash r.now (lease_ms secs) (in_order 0)
      held).0,
  λ a. (try_classify-IsHeld r.faults db sender owner_id nonce hash r.now (lease_ms secs) a held).1,
)

-- A contender that starts while the lease of another owner is alive, and will be until its
-- deadline, never gets the sender within that call, however its statements fare, as long as other
-- connections leave the lease in place.
pub contender_never_succeeds :
    (secs : ℕ) (opening : Faults) (start : ℕ) (rounds : List Round) (db db' : Db)
    (sender owner_id : Text) (nonce : ℕ) (hash : Text) (row : LockRow) (o : NonceOrdering)
    → find sender db.sender_locks ≡ some row
    → text_eq row.owner_id owner_id ≡ false
    → start + timeout_ms secs ≤ as_u64 row.expires_at_ms
    → KeepsLease sender rounds
    → acquire_sender_lock_and_classify_nonce secs opening start rounds db sender owner_id nonce hash
      ≢ some (ok o, db')
unfolding acquire_sender_lock_and_classify_nonce exec
contender_never_succeeds secs opening start rounds db db' sender owner_id nonce hash row o found
      other live k =
    elim (Option-cases (opening 0)) [
      | inr (f, e) ↦ rw (e, acquire_sender_lock_and_classify_nonce) (λ e'. cc)
      | inl e ↦
          rw (e, acquire_sender_lock_and_classify_nonce)
            (poll-IsHeld (classify_round secs sender owner_id nonce hash) sender owner_id
              (saturating_add start (timeout_ms secs)) row other
              (omega (arith, saturating_add-le start (timeout_ms secs)))
              (classify_round-IsHeld secs sender owner_id nonce hash) rounds db db' o k found)
    ]

-- Classifying a nonce touches no lock.
classify_in_tx-locks :
    (faults : Faults) (k : ℕ) (db db' : Db) (sender : Text) (nonce now : ℕ) (hash : Option Text)
    (o : NonceOrdering)
    → classify_nonce_in_tx faults k db sender nonce hash now ≡ ok (o, db')
    → db'.sender_locks ≡ db.sender_locks
unfolding classify_nonce_in_tx expected_nonce set_expected classify_against exec
classify_in_tx-locks faults k db db' sender nonce now hash o h = ground arith

-- A round that is answered with an ordering leaves the lease that the loop asks for.
granted_lease :
    (secs : ℕ) (sender owner_id : Text) (nonce : ℕ) (hash : Text) (round : Round) (db db' : Db)
    (o : NonceOrdering)
    → classify_round secs sender owner_id nonce hash round db ≡ (ok (some o), db')
    → find sender db'.sender_locks
      ≡ some (record {
        owner_id = owner_id;
        expires_at_ms = as_i64 (saturating_add round.now (lease_ms secs));
        updated_at_ms = as_i64 round.now;
      })
unfolding classify_round try_acquire_sender_lock_and_classify_once transaction exec classify_if
    write_lease
granted_lease secs sender owner_id nonce hash round db db' o h =
    let leased = write_lease db sender owner_id round.now (lease_ms secs) in
    ground (
      arith,
      text_eq_refl sender,
      find-upsert sender sender
          (record {
            owner_id = owner_id;
            expires_at_ms = as_i64 (saturating_add round.now (lease_ms secs));
            updated_at_ms = as_i64 round.now;
          })
          db.sender_locks,
      classify_in_tx-locks round.faults 4 leased db' sender nonce round.now (some hash) o,
    )

-- A task whose round in the loop that locks and classifies is answered with an ordering has the
-- sender for twice the timeout: a contender that starts its own loop within one timeout of that
-- round gets no ordering within that call, however its statements fare, as long as other
-- connections leave the lease in place and no u64 saturates.
pub lease_outlives_timeout :
    (secs : ℕ) (round : Round) (opening : Faults) (start : ℕ) (rounds : List Round)
    (db db₁ db' : Db) (sender owner_id other : Text) (nonce nonce' : ℕ) (hash hash' : Text)
    (o o' : NonceOrdering)
    → classify_round secs sender owner_id nonce hash round db ≡ (ok (some o), db₁)
    → text_eq owner_id other ≡ false
    → round.now + 2 * timeout_ms secs ≤ u64_max
    → start ≤ round.now + timeout_ms secs
    → KeepsLease sender rounds
    → acquire_sender_lock_and_classify_nonce secs opening start rounds db₁ sender other nonce' hash'
      ≢ some (ok o', db')
unfolding lease_ms saturating_add saturating_mul
lease_outlives_timeout secs round opening start rounds db db₁ db' sender owner_id other nonce nonce'
      hash hash' o o' granted differs fits soon keeps =
    let until = saturating_add round.now (lease_ms secs) in
    let stored : as_u64 (as_i64 until) ≡ until = as_u64-as_i64 until (omega arith) in
    contender_never_succeeds secs opening start rounds db₁ db' sender other nonce' hash' _ o'
      (granted_lease secs sender owner_id nonce hash round db db₁ o granted) differs
      (omega (arith, stored)) keeps
