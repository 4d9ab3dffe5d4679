-- ===== src/Store/Nonce.antt =====
-- crates/igra/src/store.rs: the expected nonce of a sender, `classify_nonce`,
-- `is_stale_replacement_candidate` and `mark_submitted_in_order_nonce`.
pub mod Candidates
pub mod Classification
pub mod Advance
use igra_foundry_sdk.Prelude.{
  ℕ, ◌+◌, Bool, false, not, ◌&&◌, Option, none, some, Result, ok, err, ◌>>=◌, ◌>>◌, ltb, leb, ◌==◌,
  if◌then◌else◌, any, Table, find, upsert,
}
use igra_foundry_sdk.Prelude.Text.{Text, text_eq}
use igra_foundry_sdk.Prelude.Words.{ℤ, pos, negsuc, as_i64, as_u64, u64_max}
use igra_foundry_sdk.Store.Types.{
  IgraStoreError, blocked_gap, nonce_overflow, NonceOrdering, in_order, stale,
}
use igra_foundry_sdk.Store.Db.{Db, TxRow, NonceRow, Faults, exec, transaction}

unfoldable pub eq_i64 : ℤ → ℤ → Bool
eq_i64 (pos a) (pos b) = a == b
eq_i64 (pos a) (negsuc b) = false
eq_i64 (negsuc a) (pos b) = false
eq_i64 (negsuc a) (negsuc b) = a == b

-- SELECT 1 FROM tx_map WHERE sender = ?1 AND l2_nonce = ?2 AND l2_tx_hash != ?3 LIMIT 1
unfoldable pub has_other_hash : Text → ℕ → Text → Table TxRow → Bool
unfolding eq_i64
has_other_hash sender nonce incoming = any (λ row.
    text_eq (row.1).sender sender
    && eq_i64 (row.1).l2_nonce (as_i64 nonce)
    && not (text_eq row.0 incoming))

-- `?` on the query stands with number k.
unfoldable pub is_stale_replacement_candidate :
    Faults → ℕ → Db → Text → ℕ → Text → Result IgraStoreError Bool
is_stale_replacement_candidate faults k db sender nonce incoming_l2_tx_hash = do
  exec faults k
  ok (has_other_hash sender nonce incoming_l2_tx_hash db.tx_map)

-- The row of a sender that is seen for the first time: INSERT INTO sender_nonce_state.
unfoldable pub set_expected : Db → Text → ℕ → ℕ → Db
set_expected db sender nonce now = record db {
  sender_nonce_state =
      upsert sender (record { next_expected_nonce = as_i64 nonce; updated_at_ms = as_i64 now })
        db.sender_nonce_state;
}

-- The SELECT has number k, the INSERT k + 1.
unfoldable pub expected_nonce :
    Faults → ℕ → Db → Text → ℕ → ℕ → Option NonceRow → Result IgraStoreError (ℕ × Db)
unfolding set_expected
expected_nonce faults k db sender nonce now none = do
  exec faults (k + 1)
  ok (nonce, set_expected db sender nonce now)
expected_nonce faults k db sender nonce now (some row) = ok (as_u64 row.next_expected_nonce, db)

unfoldable pub replacement_candidate :
    Faults → ℕ → Db → Text → ℕ → Option Text → Result IgraStoreError Bool
unfolding is_stale_replacement_candidate
replacement_candidate faults k db sender nonce none = ok false
replacement_candidate faults k db sender nonce (some incoming_hash) =
    is_stale_replacement_candidate faults k db sender nonce incoming_hash

unfoldable pub classify_against :
    Faults → ℕ → Text → ℕ → Option Text → ℕ × Db → Result IgraStoreError (NonceOrdering × Db)
unfolding replacement_candidate
classify_against faults k sender nonce l2_tx_hash (expected, db) =
    if ltb expected nonce
    then err (blocked_gap expected nonce)
    else if nonce == expected
    then ok (in_order expected, db)
    else do
      candidate ← replacement_candidate faults k db sender nonce l2_tx_hash
      ok (stale expected candidate, db)

-- Calls k, k + 1 and k + 2 of the transaction. The source reads the clock once more here, for the
-- time stamp of the row; the model is given the reading of the transaction around it.
unfoldable pub classify_nonce_in_tx :
    Faults → ℕ → Db → Text → ℕ → Option Text → ℕ → Result IgraStoreError (NonceOrdering × Db)
unfolding expected_nonce classify_against
classify_nonce_in_tx faults k db sender nonce l2_tx_hash now = do
  exec faults k
  found ← expected_nonce faults k db sender nonce now (find sender db.sender_nonce_state)
  classify_against faults (k + 2) sender nonce l2_tx_hash found

-- Opening the connection is call 0, BEGIN 1, COMMIT 5.
unfoldable pub classify_nonce :
    Faults → Db → Text → ℕ → ℕ → Result IgraStoreError NonceOrdering × Db
unfolding classify_nonce_in_tx
classify_nonce faults db sender nonce now = transaction db do
  exec faults 0
  exec faults 1
  classified ← classify_nonce_in_tx faults 2 db sender nonce none now
  exec faults 5
  ok classified

-- The UPDATE or the INSERT, call 3.
unfoldable pub advance_expected :
    Faults → Db → Text → ℕ → ℕ → Option NonceRow → Result IgraStoreError Db
unfolding set_expected
advance_expected faults db sender nonce now none = do
  exec faults 3
  ok (set_expected db sender (nonce + 1) now)
advance_expected faults db sender nonce now (some row) =
    if as_u64 row.next_expected_nonce == nonce
    then (exec faults 3 >>= λ _. ok (set_expected db sender (nonce + 1) now))
    else ok db

unfoldable pub mark_submitted_in_order_nonce :
    Faults → Db → Text → ℕ → ℕ → Result IgraStoreError (Unit {0}) × Db
unfolding advance_expected
mark_submitted_in_order_nonce faults db sender nonce now =
    if leb u64_max nonce
    then (err (nonce_overflow sender nonce), db)
    else transaction db do
      exec faults 0
      exec faults 1
      exec faults 2
      db' ← advance_expected faults db sender nonce now (find sender db.sender_nonce_state)
      exec faults 4
      ok (tt, db')
