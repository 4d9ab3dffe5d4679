-- ===== src/Store/Atomic.antt =====
-- crates/igra/src/store.rs: the operations with failing statements, against the same operations with
-- none failing.
use igra_foundry_sdk.Prelude.{
  ℕ, ◌≡◌, refl, Bool, true, false, Option, none, some, Result, ok, err, ◌>>=◌, if◌then◌else◌,
  Option-cases, inl, inr, arith,
}
use igra_foundry_sdk.Prelude.Text.{Text}
use igra_foundry_sdk.Store.Types.{SqliteFailure, IgraStoreError, sqlite, TxLifecycleUpdate}
use igra_foundry_sdk.Store.Db.{after, statement, Db, NonceRow, Faults, no_faults, exec, transaction}
use igra_foundry_sdk.Store.Lock.{
  take_if, classify_if, try_acquire_sender_lock_once, try_acquire_sender_lock_and_classify_once,
  release_sender_lock,
}
use igra_foundry_sdk.Store.Nonce.{
  is_stale_replacement_candidate, replacement_candidate, expected_nonce, classify_against,
  classify_nonce_in_tx, classify_nonce, advance_expected, mark_submitted_in_order_nonce,
}
use igra_foundry_sdk.Store.Lifecycle.{IgraStore, persist_transition, load_tx}
use igra_foundry_sdk.Store.Profile.{clear_if, reconcile_profile_cache, migrate}

-- A computation with failing statements: it answers as `m₀` does, or with a failure of SQLite.
pub data Agrees {A : Type 0} (m m₀ : Result IgraStoreError A) : Type 0 where
  same : m ≡ m₀ → Agrees m m₀
  failed : (f : SqliteFailure) → m ≡ err (sqlite f) → Agrees m m₀

Agrees-refl : {A : Type 0} (m : Result IgraStoreError A) → Agrees m m
Agrees-refl m = same refl

Agrees-exec : (faults : Faults) (k : ℕ) → Agrees (exec faults k) (exec no_faults k)
unfolding exec
Agrees-exec faults k = elim (Option-cases (faults k)) [
  | inl e ↦ same (rw (e, exec))
  | inr (f, e) ↦ failed f (rw (e, exec))
]

Agrees-bind :
    {A B : Type 0} (m m₀ : Result IgraStoreError A) (g g₀ : A → Result IgraStoreError B)
    → Agrees m m₀
    → ((a : A) → Agrees (g a) (g₀ a))
    → Agrees (m >>= g) (m₀ >>= g₀)
Agrees-bind m (ok a) g g₀ (same e) h = rw e (h a)
Agrees-bind m (err x) g g₀ (same e) h = same (rw e)
Agrees-bind m m₀ g g₀ (failed f e) h = failed f (rw e)

Agrees-if :
    {A : Type 0} (b : Bool) (m n m₀ n₀ : Result IgraStoreError A)
    → Agrees m m₀
    → Agrees n n₀
    → Agrees (if b then m else n) (if b then m₀ else n₀)
Agrees-if true m n m₀ n₀ p q = p
Agrees-if false m n m₀ n₀ p q = q

ruleset agrees = (Agrees-refl, Agrees-exec, Agrees-bind, Agrees-if)

take_if-Agrees :
    (b : Bool) (faults : Faults) (db : Db) (sender owner_id : Text) (now lease : ℕ)
    → Agrees
        (take_if b faults db sender owner_id now lease)
        (take_if b no_faults db sender owner_id now lease)
unfolding take_if
take_if-Agrees true faults db sender owner_id now lease = search (agrees)
take_if-Agrees false faults db sender owner_id now lease = search (agrees)

is_stale_replacement_candidate-Agrees :
    (faults : Faults) (k : ℕ) (db : Db) (sender : Text) (nonce : ℕ) (hash : Text)
    → Agrees
        (is_stale_replacement_candidate faults k db sender nonce hash)
        (is_stale_replacement_candidate no_faults k db sender nonce hash)
unfolding is_stale_replacement_candidate
is_stale_replacement_candidate-Agrees faults k db sender nonce hash = search (agrees)

replacement_candidate-Agrees :
    (faults : Faults) (k : ℕ) (db : Db) (sender : Text) (nonce : ℕ) (hash : Option Text)
    → Agrees
        (replacement_candidate faults k db sender nonce hash)
        (replacement_candidate no_faults k db sender nonce hash)
unfolding replacement_candidate
replacement_candidate-Agrees faults k db sender nonce none = search (agrees)
replacement_candidate-Agrees faults k db sender nonce (some h) =
    search (agrees, is_stale_replacement_candidate-Agrees)

expected_nonce-Agrees :
    (faults : Faults) (k : ℕ) (db : Db) (sender : Text) (nonce now : ℕ) (row : Option NonceRow)
    → Agrees
        (expected_nonce faults k db sender nonce now row)
        (expected_nonce no_faults k db sender nonce now row)
unfolding expected_nonce
expected_nonce-Agrees faults k db sender nonce now none = search (agrees)
expected_nonce-Agrees faults k db sender nonce now (some row) = search (agrees)

classify_against-Agrees :
    (faults : Faults) (k : ℕ) (sender : Text) (nonce : ℕ) (hash : Option Text) (found : ℕ × Db)
    → Agrees
        (classify_against faults k sender nonce hash found)
        (classify_against no_faults k sender nonce hash found)
unfolding classify_against
classify_against-Agrees faults k sender nonce hash (expected, db) =
    search (agrees, replacement_candidate-Agrees)

classify_nonce_in_tx-Agrees :
    (faults : Faults) (k : ℕ) (db : Db) (sender : Text) (nonce : ℕ) (hash : Option Text) (now : ℕ)
    → Agrees
        (classify_nonce_in_tx faults k db sender nonce hash now)
        (classify_nonce_in_tx no_faults k db sender nonce hash now)
unfolding classify_nonce_in_tx
classify_nonce_in_tx-Agrees faults k db sender nonce hash now =
    search (agrees, expected_nonce-Agrees, classify_against-Agrees)

classify_if-Agrees :
    (b : Bool) (faults : Faults) (db : Db) (sender owner_id : Text) (nonce : ℕ) (hash : Text)
    (now lease : ℕ)
    → Agrees
        (classify_if b faults db sender owner_id nonce hash now lease)
        (classify_if b no_faults db sender owner_id nonce hash now lease)
unfolding classify_if
classify_if-Agrees true faults db sender owner_id nonce hash now lease =
    search (agrees, classify_nonce_in_tx-Agrees)
classify_if-Agrees false faults db sender owner_id nonce hash now lease = search (agrees)

advance_expected-Agrees :
    (faults : Faults) (db : Db) (sender : Text) (nonce now : ℕ) (row : Option NonceRow)
    → Agrees
        (advance_expected faults db sender nonce now row)
        (advance_expected no_faults db sender nonce now row)
unfolding advance_expected
advance_expected-Agrees faults db sender nonce now none = search (agrees)
advance_expected-Agrees faults db sender nonce now (some row) = search (agrees)

clear_if-Agrees :
    (b : Bool) (faults : Faults) (db : Db) → Agrees (clear_if b faults db) (clear_if b no_faults db)
unfolding clear_if
clear_if-Agrees true faults db = search (agrees)
clear_if-Agrees false faults db = search (agrees)

-- An operation on the tables `db` with failing statements: it does what it does with none failing,
-- or it answers a failure of SQLite and leaves the tables alone.
pub data Atomic {A : Type 0} (db : Db) (o o₀ : Result IgraStoreError A × Db) : Type 0 where
  whole : o ≡ o₀ → Atomic db o o₀
  nothing : (f : SqliteFailure) → o ≡ (err (sqlite f), db) → Atomic db o o₀

transaction-Agrees :
    {A : Type 0} (db : Db) (m m₀ : Result IgraStoreError (A × Db))
    → Agrees m m₀
    → Atomic db (transaction db m) (transaction db m₀)
unfolding transaction
transaction-Agrees db m m₀ (same e) = whole (rw e)
transaction-Agrees db m m₀ (failed f e) = nothing f (rw (e, transaction))

Atomic-if :
    {A : Type 0} (b : Bool) (db : Db) (o p p₀ : Result IgraStoreError A × Db)
    → Atomic db p p₀
    → Atomic db (if b then o else p) (if b then o else p₀)
Atomic-if true db o p p₀ h = whole refl
Atomic-if false db o p p₀ h = h

ruleset atomic = (agrees, transaction-Agrees, Atomic-if)

pub try_acquire-Atomic :
    (faults : Faults) (db : Db) (sender owner_id : Text) (now lease : ℕ)
    → Atomic db
        (try_acquire_sender_lock_once faults db sender owner_id now lease)
        (try_acquire_sender_lock_once no_faults db sender owner_id now lease)
unfolding try_acquire_sender_lock_once
try_acquire-Atomic faults db sender owner_id now lease = search (atomic, take_if-Agrees) depth 24

pub try_classify-Atomic :
    (faults : Faults) (db : Db) (sender owner_id : Text) (nonce : ℕ) (hash : Text) (now lease : ℕ)
    → Atomic db
        (try_acquire_sender_lock_and_classify_once faults db sender owner_id nonce hash now lease)
        (try_acquire_sender_lock_and_classify_once no_faults db sender owner_id nonce hash now
          lease)
unfolding try_acquire_sender_lock_and_classify_once
try_classify-Atomic faults db sender owner_id nonce hash now lease =
    search (atomic, classify_if-Agrees) depth 24

pub release-Atomic :
    (faults : Faults) (db : Db) (sender owner_id : Text)
    → Atomic db
        (release_sender_lock faults db sender owner_id)
        (release_sender_lock no_faults db sender owner_id)
unfolding release_sender_lock
release-Atomic faults db sender owner_id = search (atomic) depth 24

pub classify_nonce-Atomic :
    (faults : Faults) (db : Db) (sender : Text) (nonce now : ℕ)
    → Atomic db
        (classify_nonce faults db sender nonce now)
        (classify_nonce no_faults db sender nonce now)
unfolding classify_nonce
classify_nonce-Atomic faults db sender nonce now =
    search (atomic, classify_nonce_in_tx-Agrees) depth 24

pub mark-Atomic :
    (faults : Faults) (db : Db) (sender : Text) (nonce now : ℕ)
    → Atomic db
        (mark_submitted_in_order_nonce faults db sender nonce now)
        (mark_submitted_in_order_nonce no_faults db sender nonce now)
unfolding mark_submitted_in_order_nonce
mark-Atomic faults db sender nonce now = search (atomic, advance_expected-Agrees) depth 24

pub persist-Atomic :
    (store : IgraStore) (faults : Faults) (db : Db) (update : TxLifecycleUpdate) (now : ℕ)
    → Atomic db
        (persist_transition store faults db update now)
        (persist_transition store no_faults db update now)
unfolding persist_transition
persist-Atomic store faults db update now = search (atomic) depth 24

pub reconcile-Atomic :
    (store : IgraStore) (faults : Faults) (db : Db)
    → Atomic db
        (reconcile_profile_cache store faults db)
        (reconcile_profile_cache store no_faults db)
unfolding reconcile_profile_cache
reconcile-Atomic store faults db = search (atomic, clear_if-Agrees) depth 24

pub migrate-Atomic :
    (faults : Faults) (db : Db) → Atomic db (migrate faults db) (migrate no_faults db)
unfolding migrate after statement exec
migrate-Atomic faults db = elim (Option-cases (faults 0)) [
  | inr (f, e) ↦ nothing f (ground arith)
  | inl e ↦ elim (Option-cases (faults 1)) [
    | inr (g, e₁) ↦ nothing g (ground arith)
    | inl e₁ ↦ elim (Option-cases (faults 2)) [
      | inr (h, e₂) ↦ nothing h (ground arith)
      | inl e₂ ↦ whole (ground arith)
    ]
  ]
]

pub load-Agrees :
    (exists : Bool) (faults : Faults) (db : Db) (hash : Text)
    → Agrees (load_tx exists faults db hash) (load_tx exists no_faults db hash)
unfolding load_tx
load-Agrees true faults db hash = search (agrees)
load-Agrees false faults db hash = search (agrees)
