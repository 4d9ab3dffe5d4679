-- ===== src/Store/Regression/Senders.antt =====
-- crates/igra/src/store.rs: the tests of the file on locks and nonces, run on the model. Where a test
-- sleeps, the rounds of the polling loop show the clock.
use igra_foundry_sdk.Prelude.{
  ℕ, ◌≡◌, refl, Bool, true, false, ◌&&◌, Option, none, some, List, [], ◌∷◌, Result, ok, err, ◌==◌,
  find, upsert, delete_where,
}
use igra_foundry_sdk.Prelude.Text.{Text, codes, text_eq, option_text_eq}
use igra_foundry_sdk.Prelude.Words.{u64_max, saturating_add, saturating_mul}
use igra_foundry_sdk.Store.Types.{
  IgraStoreError, blocked_gap, lock_timeout, nonce_overflow, error_code, NonceOrdering, in_order,
  igra_nonce_gap_error_code, igra_nonce_lock_timeout_error_code, igra_nonce_overflow_error_code,
}
use igra_foundry_sdk.Store.Db.{Db, empty_db, no_faults, exec, transaction}
use igra_foundry_sdk.Store.Lock.{
  Round, acquire_sender_lock, acquire_sender_lock_and_classify_nonce, release_sender_lock,
}
use igra_foundry_sdk.Store.Lock.InOrder.{quiet}
use igra_foundry_sdk.Store.Nonce.{classify_nonce, mark_submitted_in_order_nonce}
use igra_foundry_sdk.Prelude.Words.{as_u64, as_i64}
use igra_foundry_sdk.Store.Lock.{can_acquire}
use igra_foundry_sdk.Store.Nonce.{classify_nonce_in_tx}

abbrev db_of : {A : Type 0} → Option (Result IgraStoreError A × Db) → Db
db_of none = empty_db
db_of (some (r, db)) = db

abbrev is_done : {A : Type 0} → Option (Result IgraStoreError A × Db) → Bool
is_done (some (ok a, db)) = true
is_done _ = false

abbrev has_code : Text → IgraStoreError → Bool
has_code code e = option_text_eq (error_code e) (some code)

abbrev times_out : {A : Type 0} → Option (Result IgraStoreError A × Db) → Bool
times_out (some (err (lock_timeout s), db)) =
    has_code igra_nonce_lock_timeout_error_code (lock_timeout s)
times_out _ = false

-- Calls of `acquire_sender_lock` with a timeout of `secs`, at the given moments.
abbrev locks : ℕ → ℕ → List Round → Db → Text → Option (Result IgraStoreError (Unit {0}) × Db)
locks secs start rounds db owner =
    acquire_sender_lock secs no_faults start rounds db (codes "0x11") owner

abbrev igra_store_sender_lock_timeout_and_expiry : Bool
igra_store_sender_lock_timeout_and_expiry =
    let a = locks 1 0 (quiet 0 ∷ []) empty_db (codes "owner-a") in
    let b = locks 1 10 (quiet 10 ∷ quiet 1010 ∷ []) (db_of a) (codes "owner-b") in
    let c = locks 1 3110 (quiet 3110 ∷ []) (db_of b) (codes "owner-b") in
    is_done a && times_out b && is_done c

abbrev igra_store_same_owner_lock_reacquire_extends_lease : Bool
igra_store_same_owner_lock_reacquire_extends_lease =
    let a = locks 2 0 (quiet 0 ∷ []) empty_db (codes "owner-a") in
    let again = locks 2 500 (quiet 500 ∷ []) (db_of a) (codes "owner-a") in
    let b = locks 2 510 (quiet 510 ∷ quiet 2510 ∷ []) (db_of again) (codes "owner-b") in
    let late = locks 2 6610 (quiet 6610 ∷ []) (db_of b) (codes "owner-b") in
    is_done a && is_done again && times_out b && is_done late

abbrev is_in_order : ℕ → Result IgraStoreError NonceOrdering → Bool
is_in_order n (ok (in_order e)) = e == n
is_in_order n _ = false

abbrev is_in_order_some : ℕ → Option (Result IgraStoreError NonceOrdering × Db) → Bool
is_in_order_some n none = false
is_in_order_some n (some (r, db)) = is_in_order n r

abbrev classifies :
    ℕ → List Round → Db → Text → Text → Option (Result IgraStoreError NonceOrdering × Db)
classifies start rounds db owner hash =
    acquire_sender_lock_and_classify_nonce 1 no_faults start rounds db (codes "0x13") owner 11 hash

abbrev igra_store_atomic_lock_and_classify_requires_lock_ownership : Bool
igra_store_atomic_lock_and_classify_requires_lock_ownership =
    let a = classifies 0 (quiet 0 ∷ []) empty_db (codes "owner-a") (codes "0xaaa111") in
    let b =
      classifies 10 (quiet 10 ∷ quiet 1010 ∷ []) (db_of a) (codes "owner-b") (codes "0xbbb222") in
    let released = (release_sender_lock no_faults (db_of b) (codes "0x13") (codes "owner-a")).1 in
    let again = classifies 1020 (quiet 1020 ∷ []) released (codes "owner-b") (codes "0xbbb222") in
    is_in_order_some 11 a && times_out b && is_in_order_some 11 again

abbrev overflows : Result IgraStoreError (Unit {0}) → Bool
overflows (err (nonce_overflow s n)) = has_code igra_nonce_overflow_error_code (nonce_overflow s n)
overflows _ = false

abbrev igra_store_mark_submitted_nonce_overflow_is_explicit_error : Bool
igra_store_mark_submitted_nonce_overflow_is_explicit_error =
    overflows (mark_submitted_in_order_nonce no_faults empty_db (codes "0x14") u64_max 1000).0

abbrev is_gap : ℕ → ℕ → Result IgraStoreError NonceOrdering → Bool
is_gap expected got (err (blocked_gap e g)) =
    (e == expected) && (g == got) && has_code igra_nonce_gap_error_code (blocked_gap e g)
is_gap expected got _ = false

abbrev igra_store_nonce_gap_classification : Bool
igra_store_nonce_gap_classification =
    let (order, db) = classify_nonce no_faults empty_db (codes "0x22") 7 1000 in
    let db' = (mark_submitted_in_order_nonce no_faults db (codes "0x22") 7 1001).1 in
    is_in_order 7 order && is_gap 8 9 (classify_nonce no_faults db' (codes "0x22") 9 1002).0

-- The tests of store.rs on locks and nonces pass on the model.
sender_tests_pass :
    (igra_store_sender_lock_timeout_and_expiry && igra_store_same_owner_lock_reacquire_extends_lease
      && igra_store_atomic_lock_and_classify_requires_lock_ownership
      && igra_store_mark_submitted_nonce_overflow_is_explicit_error
      && igra_store_nonce_gap_classification)
    ≡ true
unfolding transaction exec find upsert text_eq option_text_eq saturating_mul saturating_add
    acquire_sender_lock can_acquire as_u64 as_i64 error_code acquire_sender_lock_and_classify_nonce
    classify_nonce_in_tx release_sender_lock mark_submitted_in_order_nonce classify_nonce
    delete_where
sender_tests_pass = refl
