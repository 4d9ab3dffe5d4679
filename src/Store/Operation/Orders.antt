-- ===== src/Store/Operation/Orders.antt =====
-- crates/igra/src/store.rs: classified nonces and the moving of the expected one against the view.
use igra_foundry_sdk.Prelude.{
  ℕ, ◌+◌, ◌≤◌, ◌≡◌, refl, ap, ◌∙◌, ==_iff, ◌<◌, Bool, true, false, Option, none, some, Result, ok,
  err, ◌>>=◌, ◌>>◌, ltb, leb, ◌==◌, if◌then◌else◌, find, [], arith, Bool-cases, inl, inr,
}
use igra_foundry_sdk.Prelude.Text.{Text}
use igra_foundry_sdk.Prelude.Words.{as_i64, as_u64, as_u64-as_i64, u64_max}
use igra_foundry_sdk.Store.Types.{IgraStoreError, blocked_gap, NonceOrdering, in_order, stale}
use igra_foundry_sdk.Store.Db.{Db, NonceRow, no_faults, exec, transaction}
use igra_foundry_sdk.Store.Lock.{
  can_acquire, write_lease, classify_if, try_acquire_sender_lock_and_classify_once,
}
use igra_foundry_sdk.Store.Nonce.{
  classify_nonce_in_tx, classify_against, replacement_candidate, classify_nonce,
  mark_submitted_in_order_nonce, advance_expected, has_other_hash, set_expected,
}
use igra_foundry_sdk.Store.Nonce.Classification.{
  classify_in_tx_answer, expected_of, seen, classify_found,
}
use igra_foundry_sdk.Store.Lifecycle.{IgraStore, map_option}
use igra_foundry_sdk.Store.Operation.{
  try_classify, classify, mark, done, ordered, ordered_if_free, answer, run,
}
use igra_foundry_sdk.Store.Operation.View.{
  view, next_of, put, take_lease, expects, note, order, order_from, refuse_back, ordered_view,
  promise,
}
use igra_foundry_sdk.Store.Operation.View.{find-put, shown, shown_order}
use igra_foundry_sdk.Store.Operation.Leases.{view-write_lease, is_free-lease_of}

view-set_expected :
    (db : Db) (sender : Text) (nonce now : ℕ)
    → nonce ≤ u64_max
    → view (set_expected db sender nonce now)
      ≡ record (view db) { next = put sender nonce (view db).next }
unfolding set_expected
view-set_expected db sender nonce now h =
    let row : NonceRow = record {
      next_expected_nonce = as_i64 nonce;
      updated_at_ms = as_i64 now;
    } in
    λ i. record (view db) {
      next = λ s.
          ((find-put next_of sender row db.sender_nonce_state s)
              ∙ ap (λ n. put sender n (view db).next s) (as_u64-as_i64 nonce h))
            i;
    }

expects-next :
    (row : Option NonceRow) (nonce : ℕ)
    → expects (map_option next_of row) nonce ≡ expected_of row nonce
expects-next none nonce = refl
expects-next (some row) nonce = refl

view-seen :
    (db : Db) (sender : Text) (nonce now : ℕ) (row : Option NonceRow)
    → nonce ≤ u64_max
    → view (seen row db sender nonce now) ≡ note (map_option next_of row) (view db) sender nonce
unfolding set_expected
view-seen db sender nonce now none h = view-set_expected db sender nonce now h
view-seen db sender nonce now (some row) h = refl

abbrev classified :
    Option NonceRow → Db → Text → ℕ → ℕ → Bool → Result IgraStoreError (NonceOrdering × Db)
classified row db sender nonce now other =
    let e = expected_of row nonce in
    if ltb e nonce
    then err (blocked_gap e nonce)
    else if nonce == e
    then ok (in_order e, seen row db sender nonce now)
    else ok (stale e other, seen row db sender nonce now)

classified-view :
    (row : Option NonceRow) (db : Db) (sender : Text) (nonce now : ℕ) (other : Bool)
    → nonce ≤ u64_max
    → shown_order (classified row db sender nonce now other) db
      ≡ order_from (map_option next_of row) other (view db) sender nonce
classified-view row db sender nonce now other h =
    rw (expects-next row nonce, ← view-seen db sender nonce now row h)
      (elim (Bool-cases (ltb (expected_of row nonce) nonce)) [
        | inl e ↦ rw e
        | inr e ↦ elim (Bool-cases (nonce == expected_of row nonce)) [
          | inl f ↦ rw (e, f)
          | inr f ↦ rw (e, f)
        ]
      ])

-- The same without a hash, as `classify_nonce` asks.
classify_none_lem :
    (k : ℕ) (db : Db) (sender : Text) (nonce now : ℕ)
    → classify_nonce_in_tx no_faults k db sender nonce none now
      ≡ classified (find sender db.sender_nonce_state) db sender nonce now false
unfolding classify_nonce_in_tx exec classify_against replacement_candidate
classify_none_lem k db sender nonce now =
    rw (classify_found k db sender nonce now [] (find sender db.sender_nonce_state)) (ground arith)

ordered-shown :
    (db : Db) (r : Result IgraStoreError (NonceOrdering × Db))
    → shown (answer ordered (transaction db (r >>= λ c. (exec no_faults 5 >> ok c))))
      ≡ ordered_view (shown_order r db)
unfolding transaction exec
ordered-shown db (ok (o, db')) = refl
ordered-shown db (err e) = refl

pub classify-kept :
    (store : IgraStore) (db : Db) (sender : Text) (nonce now : ℕ)
    → nonce ≤ u64_max
    → shown (run store no_faults (classify sender nonce now) db)
      ≡ promise store false (classify sender nonce now) (view db)
unfolding run classify_nonce exec
classify-kept store db sender nonce now h = rw (classify_none_lem 2 db sender nonce now) (
    ordered-shown db (classified (find sender db.sender_nonce_state) db sender nonce now false)
    ∙ ap ordered_view
        (classified-view (find sender db.sender_nonce_state) db sender nonce now false h))

refused-shown :
    (db db₁ : Db) (r : Result IgraStoreError (NonceOrdering × Db))
    → shown (
        answer ordered_if_free
          (transaction db (r >>= λ c. (exec no_faults 7 >> ok (some c.0, c.1)))))
      ≡ refuse_back (view db) (shown_order r db₁)
unfolding transaction exec
refused-shown db db₁ (ok (o, db')) = refl
refused-shown db db₁ (err e) = refl

ordered_under_lease :
    (db : Db) (sender owner_id : Text) (nonce : ℕ) (hash : Text) (now lease_ms : ℕ)
    → nonce ≤ u64_max
    → shown (
        answer ordered_if_free
          (transaction db (classify_if true no_faults db sender owner_id nonce hash now lease_ms)))
      ≡ refuse_back (view db) (
          order
            (has_other_hash sender nonce hash db.tx_map)
            (take_lease (view db) sender owner_id now lease_ms)
            sender
            nonce)
unfolding classify_if exec write_lease
ordered_under_lease db sender owner_id nonce hash now lease_ms h =
    let db₁ = write_lease db sender owner_id now lease_ms in
    let row = find sender db.sender_nonce_state in
    let other = has_other_hash sender nonce hash db.tx_map in
    rw (classify_in_tx_answer 4 db₁ sender nonce now hash) (
      refused-shown db db₁ (classified row db₁ sender nonce now other)
      ∙ ap (refuse_back (view db)) (
          classified-view row db₁ sender nonce now other h
          ∙ ap (λ v. order_from (map_option next_of row) other v sender nonce)
              (view-write_lease db sender owner_id now lease_ms)))

pub try_classify-kept :
    (store : IgraStore) (db : Db) (sender owner_id : Text) (nonce : ℕ) (hash : Text)
    (now lease_ms : ℕ)
    → nonce ≤ u64_max
    → shown (run store no_faults (try_classify sender owner_id nonce hash now lease_ms) db)
      ≡ promise store
          (has_other_hash sender nonce hash db.tx_map)
          (try_classify sender owner_id nonce hash now lease_ms)
          (view db)
unfolding run try_acquire_sender_lock_and_classify_once exec transaction
try_classify-kept store db sender owner_id nonce hash now lease_ms h =
    rw (← is_free-lease_of (find sender db.sender_locks) owner_id now)
      (elim (Bool-cases (can_acquire (find sender db.sender_locks) owner_id now)) [
        | inl e ↦ rw e (ordered_under_lease db sender owner_id nonce hash now lease_ms h)
        | inr e ↦ rw (e, classify_if)
      ])

advanced :
    (db : Db) (sender : Text) (nonce now : ℕ) (row : Option NonceRow)
    → nonce < u64_max
    → shown (
        answer
          (λ _. done)
          (transaction db (
            advance_expected no_faults db sender nonce now row >>= λ db'.
            (exec no_faults 4 >> ok (tt, db')))))
      ≡ (if expects (map_option next_of row) nonce == nonce
          then (ok done, record (view db) { next = put sender (nonce + 1) (view db).next })
          else (ok done, view db))
unfolding transaction exec advance_expected
advanced db sender nonce now none h =
    rw ((==_iff nonce nonce).1 refl)
      (ap (λ v. (ok done, v)) (view-set_expected db sender (nonce + 1) now (omega arith)))
advanced db sender nonce now (some row) h =
    elim (Bool-cases (as_u64 row.next_expected_nonce == nonce)) [
      | inl e ↦
          rw e (ap (λ v. (ok done, v)) (view-set_expected db sender (nonce + 1) now (omega arith)))
      | inr e ↦ rw e
    ]

pub mark-kept :
    (store : IgraStore) (db : Db) (sender : Text) (nonce now : ℕ)
    → shown (run store no_faults (mark sender nonce now) db)
      ≡ promise store false (mark sender nonce now) (view db)
unfolding run mark_submitted_in_order_nonce exec
mark-kept store db sender nonce now = elim (Bool-cases (leb u64_max nonce)) [
  | inl e ↦ rw e
  | inr e ↦ rw e (advanced db sender nonce now (find sender db.sender_nonce_state) (ground arith))
]
