-- ===== src/Store/Tables/Commits.antt =====
-- crates/igra/src/store.rs: what the transactions commit, when no statement fails.
use igra_foundry_sdk.Prelude.{
  ℕ, ◌+◌, Bool, true, false, Option, none, some, Result, ok, err, ◌>>=◌, ltb, leb, ◌==◌,
  if◌then◌else◌, find, Bool-cases, inl, inr,
}
use igra_foundry_sdk.Prelude.Text.{Text}
use igra_foundry_sdk.Prelude.Words.{as_u64, u64_max}
use igra_foundry_sdk.Store.Types.{IgraStoreError, blocked_gap, in_order, stale}
use igra_foundry_sdk.Store.Db.{Db, NonceRow, no_faults, exec, transaction}
use igra_foundry_sdk.Store.Lock.{write_lease, take_if, classify_if}
use igra_foundry_sdk.Store.Nonce.{
  classify_nonce_in_tx, expected_nonce, classify_against, replacement_candidate,
  is_stale_replacement_candidate, advance_expected, mark_submitted_in_order_nonce,
}
use igra_foundry_sdk.Store.Lifecycle.{IgraStore}
use igra_foundry_sdk.Store.Profile.{clear_if, write_profile}
use igra_foundry_sdk.Store.Operation.{Answer, answer}
use igra_foundry_sdk.Store.Tables.{IsDb, write_lease-IsDb, set_expected-IsDb, write_profile-Unique}

-- What a transaction commits, and what it leaves when it does not.
abbrev pub Commits : {A : Type 0} → Result IgraStoreError (A × Db) → Type 0
Commits (ok (a, db)) = IsDb db
Commits (err e) = Unit

pub transaction-IsDb :
    {A : Type 0} (db : Db) (m : Result IgraStoreError (A × Db))
    → IsDb db
    → Commits m
    → IsDb (transaction db m).1
unfolding transaction
transaction-IsDb db (ok (a, d)) h c = c
transaction-IsDb db (err e) h c = h

pub answer-IsDb :
    {A : Type 0} (f : A → Answer) (o : Result IgraStoreError A × Db)
    → IsDb o.1
    → IsDb (answer f o).1
answer-IsDb f (ok a, db) h = h
answer-IsDb f (err e, db) h = h

expected_nonce-Commits :
    (k : ℕ) (db : Db) (sender : Text) (nonce now : ℕ) (row : Option NonceRow)
    → IsDb db
    → Commits (expected_nonce no_faults k db sender nonce now row)
unfolding expected_nonce exec
expected_nonce-Commits k db sender nonce now none h = set_expected-IsDb db sender nonce now h
expected_nonce-Commits k db sender nonce now (some row) h = h

classified-Commits :
    (e nonce : ℕ) (other : Bool) (db : Db)
    → IsDb db
    → Commits (
        if ltb e nonce
        then err (blocked_gap e nonce)
        else if nonce == e
        then ok (in_order e, db)
        else ok (stale e other, db))
classified-Commits e nonce other db h = elim (Bool-cases (ltb e nonce)) [
  | inl g ↦ rw g tt
  | inr g ↦ elim (Bool-cases (nonce == e)) [ inl i ↦ rw (g, i) h | inr i ↦ rw (g, i) h ]
]

classify_against-Commits :
    (k : ℕ) (sender : Text) (nonce : ℕ) (hash : Option Text) (r : Result IgraStoreError (ℕ × Db))
    → Commits r
    → Commits (r >>= classify_against no_faults k sender nonce hash)
unfolding classify_against exec replacement_candidate is_stale_replacement_candidate
classify_against-Commits k sender nonce none (ok (e, db)) h = classified-Commits e nonce _ db h
classify_against-Commits k sender nonce (some t) (ok (e, db)) h = classified-Commits e nonce _ db h
classify_against-Commits k sender nonce none (err e) h = tt
classify_against-Commits k sender nonce (some t) (err e) h = tt

pub classify_in_tx-Commits :
    (k : ℕ) (db : Db) (sender : Text) (nonce : ℕ) (hash : Option Text) (now : ℕ)
    → IsDb db
    → Commits (classify_nonce_in_tx no_faults k db sender nonce hash now)
unfolding classify_nonce_in_tx exec
classify_in_tx-Commits k db sender nonce hash now h =
    classify_against-Commits (k + 2) sender nonce hash _
      (expected_nonce-Commits k db sender nonce now (find sender db.sender_nonce_state) h)

-- Statements after the last change, up to COMMIT.
Commits-map :
    {A B : Type 0} (r : Result IgraStoreError (A × Db)) (f : A → B)
    → Commits r
    → Commits (r >>= λ c. ok (f c.0, c.1))
Commits-map (ok (a, db)) f h = h
Commits-map (err e) f h = tt

pub Commits-bare :
    {A : Type 0} (r : Result IgraStoreError (A × Db)) → Commits r → Commits (r >>= λ c. ok c)
Commits-bare (ok (a, db)) h = h
Commits-bare (err e) h = tt

advance_expected-Commits :
    (db : Db) (sender : Text) (nonce now : ℕ) (row : Option NonceRow)
    → IsDb db
    → Commits (advance_expected no_faults db sender nonce now row >>= λ d. ok (tt {0}, d))
unfolding advance_expected exec
advance_expected-Commits db sender nonce now none h = set_expected-IsDb db sender (nonce + 1) now h
advance_expected-Commits db sender nonce now (some row) h =
    elim (Bool-cases (as_u64 row.next_expected_nonce == nonce)) [
      | inl e ↦ rw e (set_expected-IsDb db sender (nonce + 1) now h)
      | inr e ↦ rw e h
    ]

pub classify_if-Commits :
    (b : Bool) (db : Db) (sender owner_id : Text) (nonce : ℕ) (hash : Text) (now lease_ms : ℕ)
    → IsDb db
    → Commits (classify_if b no_faults db sender owner_id nonce hash now lease_ms)
unfolding classify_if exec
classify_if-Commits true db sender owner_id nonce hash now lease_ms h = Commits-map _ some (
    classify_in_tx-Commits 4 (write_lease db sender owner_id now lease_ms) sender nonce (some hash)
      now (write_lease-IsDb db sender owner_id now lease_ms h))
classify_if-Commits false db sender owner_id nonce hash now lease_ms h = h

pub take_if-Commits :
    (b : Bool) (db : Db) (sender owner_id : Text) (now lease_ms : ℕ)
    → IsDb db
    → Commits (take_if b no_faults db sender owner_id now lease_ms >>= λ d. ok (b, d))
unfolding take_if exec
take_if-Commits true db sender owner_id now lease_ms h =
    write_lease-IsDb db sender owner_id now lease_ms h
take_if-Commits false db sender owner_id now lease_ms h = h

pub clear_if-Commits :
    (b : Bool) (store : IgraStore) (db : Db)
    → IsDb db
    → Commits (
        clear_if b no_faults db >>= λ d.
        ok (tt {0}, record d { schema_meta = write_profile store d.schema_meta }))
unfolding clear_if exec
clear_if-Commits true store db h = record {
  meta = write_profile-Unique store db.schema_meta h.meta;
  tx = tt;
  nonces = tt;
  locks = tt;
  rows = tt;
}
clear_if-Commits false store db h = record {
  meta = write_profile-Unique store db.schema_meta h.meta;
  tx = h.tx;
  nonces = h.nonces;
  locks = h.locks;
  rows = h.rows;
}

pub marked-IsDb :
    (db : Db) (sender : Text) (nonce now : ℕ)
    → IsDb db
    → IsDb (mark_submitted_in_order_nonce no_faults db sender nonce now).1
unfolding mark_submitted_in_order_nonce exec
marked-IsDb db sender nonce now h = elim (Bool-cases (leb u64_max nonce)) [
  | inl e ↦ rw e h
  | inr e ↦ rw e (transaction-IsDb db _ h (advance_expected-Commits db sender nonce now _ h))
]
