-- ===== src/Store/Nonce/Classification.antt =====
-- crates/igra/src/store.rs: what `classify_nonce_in_tx` answers when no statement fails.
use igra_foundry_sdk.Prelude.{
  ◌<◌, true, false, Result, Unique, upsert, Bool-cases, inl, inr, ℕ, ◌+◌, ◌≡◌, refl, Option, none,
  some, ok, err, arith, if◌then◌else◌, find, Table, ltb, ◌==◌,
}
use igra_foundry_sdk.Prelude.Text.{Text}
use igra_foundry_sdk.Prelude.Words.{as_u64, as_i64}
use igra_foundry_sdk.Store.Types.{IgraStoreError, NonceOrdering, blocked_gap, in_order, stale}
use igra_foundry_sdk.Store.Db.{Db, TxRow, NonceRow, no_faults, exec}
use igra_foundry_sdk.Store.Nonce.{
  has_other_hash, set_expected, classify_against, expected_nonce, classify_nonce_in_tx,
}
use igra_foundry_sdk.Store.Nonce.Candidates.{Other, has_other_hash_sound, has_other_hash_complete}

-- The nonce that the tables expect of a sender: the stored one, or the one that comes first.
abbrev pub expected_of : Option NonceRow → ℕ → ℕ
expected_of none nonce = nonce
expected_of (some row) nonce = as_u64 row.next_expected_nonce

abbrev pub expected : Db → Text → ℕ → ℕ
expected db sender nonce = expected_of (find sender db.sender_nonce_state) nonce

-- A sender that is seen for the first time is recorded with the nonce that it brings.
abbrev pub seen : Option NonceRow → Db → Text → ℕ → ℕ → Db
seen none db sender nonce now = record db {
  sender_nonce_state =
      upsert sender (record { next_expected_nonce = as_i64 nonce; updated_at_ms = as_i64 now })
        db.sender_nonce_state;
}
seen (some row) db sender nonce now = db

seen-tx_map :
    (row : Option NonceRow) (db : Db) (sender : Text) (nonce now : ℕ)
    → (seen row db sender nonce now).tx_map ≡ db.tx_map
seen-tx_map none db sender nonce now = refl
seen-tx_map (some row) db sender nonce now = refl

pub classify_found :
    (k : ℕ) (db : Db) (sender : Text) (nonce now : ℕ) (hash : Text) (row : Option NonceRow)
    → expected_nonce no_faults k db sender nonce now row
      ≡ ok (expected_of row nonce, seen row db sender nonce now)
unfolding expected_nonce set_expected exec
classify_found k db sender nonce now hash none = refl
classify_found k db sender nonce now hash (some row) = refl

classify_against_lem :
    (k : ℕ) (db : Db) (sender : Text) (nonce e : ℕ) (hash : Text) (rows : Table TxRow)
    → db.tx_map ≡ rows
    → classify_against no_faults k sender nonce (some hash) (e, db) ≡ (
        if ltb e nonce
        then err (blocked_gap e nonce)
        else if nonce == e
        then ok (in_order e, db)
        else ok (stale e (has_other_hash sender nonce hash rows), db))
unfolding classify_against exec
classify_against_lem k db sender nonce e hash rows same = ground arith

-- The answer in the words of the code.
pub classify_in_tx_answer :
    (k : ℕ) (db : Db) (sender : Text) (nonce now : ℕ) (hash : Text)
    → let e = expected db sender nonce in
      let db' = seen (find sender db.sender_nonce_state) db sender nonce now in
      classify_nonce_in_tx no_faults k db sender nonce (some hash) now ≡ (
        if ltb e nonce
        then err (blocked_gap e nonce)
        else if nonce == e
        then ok (in_order e, db')
        else ok (stale e (has_other_hash sender nonce hash db.tx_map), db'))
unfolding classify_nonce_in_tx exec
classify_in_tx_answer k db sender nonce now hash =
    rw (classify_found (k) db sender nonce now hash (find sender db.sender_nonce_state)) (
      classify_against_lem (k + 2) _ sender nonce _ hash db.tx_map
        (seen-tx_map (find sender db.sender_nonce_state) db sender nonce now))

-- What is to be answered about a nonce, against the expected one and the transactions that are known.
pub data IsOrdering (db : Db) (sender : Text) (nonce : ℕ) (hash : Text)
    : Result IgraStoreError NonceOrdering → Type 0 where
  too_high :
      expected db sender nonce < nonce
      → IsOrdering db sender nonce hash (err (blocked_gap (expected db sender nonce) nonce))
  in_turn :
      nonce ≡ expected db sender nonce
      → IsOrdering db sender nonce hash (ok (in_order (expected db sender nonce)))
  replaces :
      nonce < expected db sender nonce
      → Other db.tx_map sender nonce hash
      → IsOrdering db sender nonce hash (ok (stale (expected db sender nonce) true))
  passed :
      nonce < expected db sender nonce
      → ¬ Other db.tx_map sender nonce hash
      → IsOrdering db sender nonce hash (ok (stale (expected db sender nonce) false))

abbrev pub map_ok : {A B : Type 0} → (A → B) → Result IgraStoreError A → Result IgraStoreError B
map_ok f (ok a) = ok (f a)
map_ok f (err e) = err e

-- An answer that is the one to be given, in the words of the code.
pub ordering_lem :
    (db : Db) (sender : Text) (nonce : ℕ) (hash : Text)
    → Unique db.tx_map
    → let e = expected db sender nonce in
      IsOrdering db sender nonce hash (
        if ltb e nonce
        then err (blocked_gap e nonce)
        else if nonce == e
        then ok (in_order e)
        else ok (stale e (has_other_hash sender nonce hash db.tx_map)))
ordering_lem db sender nonce hash u =
    let e = expected db sender nonce in
    elim (Bool-cases (ltb e nonce)) [
      | inl gap ↦ rw gap (too_high (ground arith))
      | inr g ↦ elim (Bool-cases (nonce == e)) [
        | inl i ↦ rw (g, i) (in_turn (ground arith))
        | inr i ↦ elim (Bool-cases (has_other_hash sender nonce hash db.tx_map)) [
          | inl o ↦
              rw (g, i, o)
                (replaces (ground arith) (has_other_hash_sound sender nonce hash db.tx_map u o))
          | inr o ↦
              rw (g, i, o)
                (passed (ground arith) (λ other.
                  absurd (cc (o, has_other_hash_complete sender nonce hash db.tx_map other))))
        ]
      ]
    ]

-- When no statement fails and a hash has one row, a nonce above the expected one is refused, the
-- expected one is in order, and one below it is stale: a replacement candidate when a row
-- with another hash has the sender and the nonce, and none otherwise. A sender without a row is
-- recorded with the nonce that it brings, which is then in order; nothing else changes.
pub classify_in_tx_lem :
    (k : ℕ) (db : Db) (sender : Text) (nonce now : ℕ) (hash : Text)
    → Unique db.tx_map
    → (r : Result IgraStoreError NonceOrdering) × (IsOrdering db sender nonce hash r
        × (classify_nonce_in_tx no_faults k db sender nonce (some hash) now
            ≡ map_ok (λ o. (o, seen (find sender db.sender_nonce_state) db sender nonce now)) r))
classify_in_tx_lem k db sender nonce now hash u =
    let e = expected db sender nonce in
    (
      _,
      (
        ordering_lem db sender nonce hash u,
        rw (classify_in_tx_answer k db sender nonce now hash) (elim (Bool-cases (ltb e nonce)) [
          | inl gap ↦ rw gap
          | inr g ↦ elim (Bool-cases (nonce == e)) [ inl i ↦ rw (g, i) | inr i ↦ rw (g, i) ]
        ]),
      ),
    )
