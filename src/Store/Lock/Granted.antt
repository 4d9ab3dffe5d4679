-- ===== src/Store/Lock/Granted.antt =====
-- crates/igra/src/store.rs: a sender that is free is given to whoever asks.
use igra_foundry_sdk.Prelude.{
  ℕ, ◌<◌, Unique, ◌≡◌, ◌≢◌, refl, sym, subst, inl, inr, Bool, true, false, none, some, Option,
  Result, ok, err, List, [], ◌∷◌, arith, find, ltb, leb, ◌==◌, Bool-cases, Option-cases,
  if◌then◌else◌,
}
use igra_foundry_sdk.Prelude.Text.{Text, text_eq_iff}
use igra_foundry_sdk.Prelude.Words.{saturating_add, as_u64}
use igra_foundry_sdk.Store.Types.{
  IgraStoreError, NonceOrdering, in_order, stale, blocked_gap, sqlite, lock_timeout,
  is_retryable_busy_error,
}
use igra_foundry_sdk.Store.Db.{Db, LockRow, Faults, no_faults, exec, transaction}
use igra_foundry_sdk.Store.Atomic.{whole, nothing, try_classify-Atomic}
use igra_foundry_sdk.Store.Nonce.{has_other_hash}
use igra_foundry_sdk.Store.Nonce.Classification.{
  expected, classify_in_tx_answer, IsOrdering, ordering_lem, map_ok,
}
use igra_foundry_sdk.Store.Lock.{
  Round, can_acquire, write_lease, classify_if, try_acquire_sender_lock_and_classify_once, settle,
  poll, classify_round, timeout_ms, lease_ms, acquire_sender_lock_and_classify_nonce,
}

-- What the attempt answers about a sender that is free: the classification of the nonce.
abbrev pub classified : ℕ → ℕ → Bool → Result IgraStoreError (Option NonceOrdering)
classified e nonce candidate =
    if ltb e nonce
    then err (blocked_gap e nonce)
    else ok (some (if nonce == e then in_order e else stale e candidate))

-- The answer in the words of the code.
try_classify-can_acquire :
    (db : Db) (sender owner_id : Text) (nonce : ℕ) (hash : Text) (now lease : ℕ)
    → can_acquire (find sender db.sender_locks) owner_id now ≡ true
    → (try_acquire_sender_lock_and_classify_once no_faults db sender owner_id nonce hash now
        lease).0
      ≡ classified (expected db sender nonce) nonce (has_other_hash sender nonce hash db.tx_map)
unfolding try_acquire_sender_lock_and_classify_once transaction exec classify_if write_lease
try_classify-can_acquire db sender owner_id nonce hash now lease free =
    let db₁ = write_lease db sender owner_id now lease in
    let e = expected db sender nonce in
    rw (free, classify_in_tx_answer 4 db₁ sender nonce now hash)
      (elim (Bool-cases (ltb e nonce)) [
        | inl gap ↦ rw gap
        | inr g ↦ elim (Bool-cases (nonce == e)) [ inl i ↦ rw (g, i) | inr i ↦ rw (g, i) ]
      ])

-- A sender without a lease, with the task's own, or with one that has run out.
pub data IsFree (db : Db) (sender owner_id : Text) (now : ℕ) : Type 0 where
  without : find sender db.sender_locks ≡ none → IsFree db sender owner_id now
  own :
      (row : LockRow)
      → find sender db.sender_locks ≡ some row
      → row.owner_id ≡ owner_id
      → IsFree db sender owner_id now
  run_out :
      (row : LockRow)
      → find sender db.sender_locks ≡ some row
      → as_u64 row.expires_at_ms < now
      → IsFree db sender owner_id now

can_acquire-IsFree :
    (db : Db) (sender owner_id : Text) (now : ℕ)
    → IsFree db sender owner_id now
    → can_acquire (find sender db.sender_locks) owner_id now ≡ true
unfolding can_acquire
can_acquire-IsFree db sender owner_id now (without e) = rw e
can_acquire-IsFree db sender owner_id now (own row e same) =
    rw e (ground (arith, text_eq_iff row.owner_id owner_id))
can_acquire-IsFree db sender owner_id now (run_out row e late) = rw e (ground arith)

-- When no statement fails, a hash has one row, and the sender has no lease, or the caller's own, or
-- one that has run out, a single attempt is answered with the classification of the nonce: a gap
-- above the expected nonce, in order at it, stale below it, and then a replacement candidate when
-- another transaction is known with the sender and the nonce, and none otherwise.
pub try_classify-free :
    (db : Db) (sender owner_id : Text) (nonce : ℕ) (hash : Text) (now lease : ℕ)
    → Unique db.tx_map
    → IsFree db sender owner_id now
    → (r : Result IgraStoreError NonceOrdering) × (IsOrdering db sender nonce hash r
        × ((try_acquire_sender_lock_and_classify_once no_faults db sender owner_id nonce hash now
              lease).0
            ≡ map_ok some r))
try_classify-free db sender owner_id nonce hash now lease u f =
    let e = expected db sender nonce in
    (
      _,
      (
        ordering_lem db sender nonce hash u,
        rw
            (try_classify-can_acquire db sender owner_id nonce hash now lease
              (can_acquire-IsFree db sender owner_id now f))
            (elim (Bool-cases (ltb e nonce)) [
              | inl gap ↦ rw gap
              | inr g ↦ elim (Bool-cases (nonce == e)) [ inl i ↦ rw (g, i) | inr i ↦ rw (g, i) ]
            ]),
      ),
    )

-- A round in which the loop ends with something else than the timeout.
abbrev Decides : Text → Result IgraStoreError (Option NonceOrdering) → Type 0
Decides sender (ok (some o)) = Unit
Decides sender (ok none) = ⊥
Decides sender (err e) = (is_retryable_busy_error e ≡ false) × (e ≢ lock_timeout sender)

abbrev NoTimeout : {A : Type 0} → Text → Result IgraStoreError A → Type 0
NoTimeout sender (ok a) = Unit
NoTimeout sender (err e) = e ≢ lock_timeout sender

classified-Decides :
    (sender : Text) (e nonce : ℕ) (candidate : Bool) → Decides sender (classified e nonce candidate)
unfolding is_retryable_busy_error
classified-Decides sender e nonce candidate = elim (Bool-cases (ltb e nonce)) [
  | inl gap ↦ rw gap (refl, λ h. cc)
  | inr g ↦ rw g tt
]

classified-NoTimeout :
    (sender : Text) (e nonce : ℕ) (candidate : Bool)
    → NoTimeout sender (classified e nonce candidate)
classified-NoTimeout sender e nonce candidate = elim (Bool-cases (ltb e nonce)) [
  | inl gap ↦ rw gap (λ h. cc)
  | inr g ↦ rw g tt
]

whole-NoTimeout :
    (db : Db) (sender owner_id : Text) (nonce : ℕ) (hash : Text) (now lease : ℕ)
    → NoTimeout sender
        (try_acquire_sender_lock_and_classify_once no_faults db sender owner_id nonce hash now
          lease).0
unfolding try_acquire_sender_lock_and_classify_once transaction exec classify_if
whole-NoTimeout db sender owner_id nonce hash now lease =
    elim (Bool-cases (can_acquire (find sender db.sender_locks) owner_id now)) [
      | inl free ↦
          rw (try_classify-can_acquire db sender owner_id nonce hash now lease free)
            (classified-NoTimeout sender _ nonce _)
      | inr held ↦ rw held tt
    ]

attempt-NoTimeout :
    (faults : Faults) (db : Db) (sender owner_id : Text) (nonce : ℕ) (hash : Text) (now lease : ℕ)
    → NoTimeout sender
        (try_acquire_sender_lock_and_classify_once faults db sender owner_id nonce hash now lease).0
attempt-NoTimeout faults db sender owner_id nonce hash now lease =
    elim (try_classify-Atomic faults db sender owner_id nonce hash now lease) [
      | whole e ↦
          subst (λ o. NoTimeout sender o.0) (sym e)
            (whole-NoTimeout db sender owner_id nonce hash now lease)
      | nothing f e ↦ subst (λ o. NoTimeout sender o.0) (sym e) (λ h. cc)
    ]

-- Some round before the deadline finds the sender free, with no failing statement; the tables of a
-- round are those that the rounds before and the other connections left.
pub data FreeBefore (secs deadline_ms : ℕ) (sender owner_id : Text) (nonce : ℕ) (hash : Text)
    : List Round → Db → Type 0 where
  now_free :
      (round : Round) (rounds : List Round) (db : Db)
      → round.now < deadline_ms
      → round.faults ≡ no_faults
      → IsFree (round.interference db) sender owner_id round.now
      → FreeBefore secs deadline_ms sender owner_id nonce hash (round ∷ rounds) db
  free_later :
      (round : Round) (rounds : List Round) (db : Db)
      → round.now < deadline_ms
      → FreeBefore secs deadline_ms sender owner_id nonce hash rounds
          (classify_round secs sender owner_id nonce hash round (round.interference db)).1
      → FreeBefore secs deadline_ms sender owner_id nonce hash (round ∷ rounds) db

-- A result is there, and it is not the timeout.
pub data IsDecided (sender : Text)
    : Option (Result IgraStoreError NonceOrdering × Db) → Type 0 where
  decided :
      (r : Result IgraStoreError NonceOrdering) (db : Db)
      → r ≢ err (lock_timeout sender)
      → IsDecided sender (some (r, db))

settle-Decides :
    (sender : Text) (r : Result IgraStoreError (Option NonceOrdering) × Db)
    (again : Db → Option (Result IgraStoreError NonceOrdering × Db))
    → Decides sender r.0
    → IsDecided sender (settle r again)
unfolding settle
settle-Decides sender (ok (some o), db) again d = decided (ok o) db (λ h. cc)
settle-Decides sender (ok none, db) again d = absurd d
settle-Decides sender (err e, db) again d = rw d.0 (decided (err e) db (λ h. d.1 (cc h)))

settle-again :
    (sender : Text) (r : Result IgraStoreError (Option NonceOrdering) × Db)
    (again : Db → Option (Result IgraStoreError NonceOrdering × Db))
    → NoTimeout sender r.0
    → IsDecided sender (again r.1)
    → IsDecided sender (settle r again)
unfolding settle
settle-again sender (ok (some o), db) again n h = decided (ok o) db (λ e. cc)
settle-again sender (ok none, db) again n h = h
settle-again sender (err e, db) again n h = elim (Bool-cases (is_retryable_busy_error e)) [
  | inl busy ↦ rw busy h
  | inr fatal ↦ rw fatal (decided (err e) db (λ k. n (cc k)))
]

round-Decides :
    (secs : ℕ) (sender owner_id : Text) (nonce : ℕ) (hash : Text) (round : Round) (db : Db)
    → round.faults ≡ no_faults
    → can_acquire (find sender db.sender_locks) owner_id round.now ≡ true
    → Decides sender (classify_round secs sender owner_id nonce hash round db).0
unfolding classify_round
round-Decides secs sender owner_id nonce hash round db calm free =
    rw (calm, try_classify-can_acquire db sender owner_id nonce hash round.now (lease_ms secs) free)
      (classified-Decides sender (expected db sender nonce) nonce _)

poll-IsDecided :
    (secs : ℕ) (sender owner_id : Text) (nonce : ℕ) (hash : Text) (deadline_ms : ℕ)
    (rounds : List Round) (db : Db)
    → FreeBefore secs deadline_ms sender owner_id nonce hash rounds db
    → IsDecided sender
        (poll (classify_round secs sender owner_id nonce hash) sender deadline_ms rounds db)
unfolding poll classify_round
poll-IsDecided secs sender owner_id nonce hash deadline_ms [] db f = elim f [ ]
poll-IsDecided secs sender owner_id nonce hash deadline_ms (round ∷ rounds) db
      (now_free _ _ _ early calm free) =
    let before : leb deadline_ms round.now ≡ false = ground arith in
    rw before (
      settle-Decides sender _ _ (
        round-Decides secs sender owner_id nonce hash round (round.interference db) calm
          (can_acquire-IsFree (round.interference db) sender owner_id round.now free)))
poll-IsDecided secs sender owner_id nonce hash deadline_ms (round ∷ rounds) db
      (free_later _ _ _ early f) =
    let before : leb deadline_ms round.now ≡ false = ground arith in
    rw before (
      settle-again sender _ _
        (attempt-NoTimeout round.faults (round.interference db) sender owner_id nonce hash round.now
          (lease_ms secs))
        (poll-IsDecided secs sender owner_id nonce hash deadline_ms rounds _ f))

-- A task that waits for a sender gets its answer: when some round before the deadline finds the
-- sender without a lease, with the task's own, or with one that has run out, and the statements of
-- that round succeed, the call returns, and not with the lock timeout,
-- whatever happened in the rounds before and whatever other connections did.
pub free_round_decides :
    (secs : ℕ) (opening : Faults) (start : ℕ) (rounds : List Round) (db : Db)
    (sender owner_id : Text) (nonce : ℕ) (hash : Text)
    → FreeBefore secs (saturating_add start (timeout_ms secs)) sender owner_id nonce hash rounds db
    → IsDecided sender (
        acquire_sender_lock_and_classify_nonce secs opening start rounds db sender owner_id nonce
          hash)
unfolding acquire_sender_lock_and_classify_nonce exec
free_round_decides secs opening start rounds db sender owner_id nonce hash f =
    elim (Option-cases (opening 0)) [
      | inl e ↦
          rw (e, acquire_sender_lock_and_classify_nonce)
            (poll-IsDecided secs sender owner_id nonce hash _ rounds db f)
      | inr (g, e) ↦
          rw (e, acquire_sender_lock_and_classify_nonce) (decided (err (sqlite g)) db (λ h. cc))
    ]
