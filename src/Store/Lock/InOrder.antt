-- ===== src/Store/Lock/InOrder.antt =====
-- crates/igra/src/store.rs: the first round of a task that finds the sender free, with its nonce in
-- order and no failing statement.
use igra_foundry_sdk.Prelude.{ℕ, ◌<◌, ◌≡◌, true, false, some, ok, [], ◌∷◌, arith, find, leb}
use igra_foundry_sdk.Prelude.Text.{Text}
use igra_foundry_sdk.Prelude.Words.{saturating_add}
use igra_foundry_sdk.Store.Types.{in_order}
use igra_foundry_sdk.Store.Db.{Db, no_faults, exec, transaction}
use igra_foundry_sdk.Store.Nonce.Classification.{expected, seen, classify_in_tx_answer}
use igra_foundry_sdk.Store.Lock.{
  Round, can_acquire, write_lease, classify_if, classify_round, lease_ms, timeout_ms, poll, settle,
  try_acquire_sender_lock_and_classify_once, acquire_sender_lock_and_classify_nonce,
}

-- The lease and the row of a sender that is taken in order.
try_classify-in_order :
    (db : Db) (sender owner_id : Text) (nonce : ℕ) (hash : Text) (now lease : ℕ)
    → can_acquire (find sender db.sender_locks) owner_id now ≡ true
    → expected db sender nonce ≡ nonce
    → try_acquire_sender_lock_and_classify_once no_faults db sender owner_id nonce hash now lease
      ≡ (
        ok (some (in_order nonce)),
        seen
            (find sender db.sender_nonce_state)
            (write_lease db sender owner_id now lease)
            sender
            nonce
            now,
      )
unfolding try_acquire_sender_lock_and_classify_once transaction exec classify_if write_lease
try_classify-in_order db sender owner_id nonce hash now lease free next =
    let db₁ = write_lease db sender owner_id now lease in
    rw (free, classify_in_tx_answer 4 db₁ sender nonce now hash, next) (ground arith)

-- A round at the clock's reading `now`, with nothing in between.
abbrev pub quiet : ℕ → Round
quiet now = record { interference = λ db. db; now = now; faults = no_faults }

-- The sender is leased to the task, and has a row with its next nonce.
abbrev pub leased : ℕ → Db → Text → Text → ℕ → ℕ → Db
leased secs db sender owner_id nonce now =
    seen (find sender db.sender_nonce_state) (write_lease db sender owner_id now (lease_ms secs))
      sender nonce now

pub acquire_in_order :
    (secs start : ℕ) (db : Db) (sender owner_id : Text) (nonce : ℕ) (hash : Text)
    → start < saturating_add start (timeout_ms secs)
    → can_acquire (find sender db.sender_locks) owner_id start ≡ true
    → expected db sender nonce ≡ nonce
    → acquire_sender_lock_and_classify_nonce secs no_faults start
        (quiet start ∷ [])
        db
        sender
        owner_id
        nonce
        hash
      ≡ some (ok (in_order nonce), leased secs db sender owner_id nonce start)
unfolding acquire_sender_lock_and_classify_nonce exec poll classify_round settle
acquire_in_order secs start db sender owner_id nonce hash early free next =
    let before : leb (saturating_add start (timeout_ms secs)) start ≡ false = ground arith in
    rw (before, try_classify-in_order db sender owner_id nonce hash start (lease_ms secs) free next)
