-- ===== src/Transport/Send/Calm.antt =====
-- crates/igra/src/transport.rs: the steps of a send in order that meets no failure, and the tables
-- after each.
use igra_foundry_sdk.Prelude.{
  ℕ, ◌+◌, ◌<◌, ◌≤◌, ◌≡◌, refl, ap, ◌∙◌, true, false, ◌&&◌, Option, none, some, Result, ok, [], ◌∷◌,
  ◌++◌, arith, find, Unique, Table, delete_where, upsert, find-upsert, upsert-Unique,
  find-delete_where, ==_iff,
}
use igra_foundry_sdk.Prelude.Text.{Text, text_eq, text_eq_refl}
use igra_foundry_sdk.Prelude.Words.{u64_max, saturating_add}
use igra_foundry_sdk.Store.Types.{
  received_raw_l2, kaspa_unsigned_created, kaspa_prefix_mined, kaspa_signed, kaspa_broadcasted,
  as_str, TxLifecycleUpdate,
}
use igra_foundry_sdk.Store.Db.{Db, TxRow, NonceRow, LockRow, no_faults, exec, transaction}
use igra_foundry_sdk.Store.Lifecycle.{persist_transition, write_row, row_of}
use igra_foundry_sdk.Store.Nonce.{mark_submitted_in_order_nonce, advance_expected, set_expected}
use igra_foundry_sdk.Store.Nonce.Classification.{expected, expected_of, seen}
use igra_foundry_sdk.Store.Nonce.Advance.{expected-mark, expected-set_expected}
use igra_foundry_sdk.Store.Lock.{
  can_acquire, write_lease, delete_lease, lease_ms, timeout_ms, release_sender_lock,
}
use igra_foundry_sdk.Submitter.Submit.{IgraSubmitRequest, IgraSubmitResult}
use igra_foundry_sdk.Transport.Tracked.{
  TrackedSend, SendWorld, Progress, persisted, submitted, update_of, start,
}
use igra_foundry_sdk.Transport.Send.{
  lock_stage, locked, after_lock, persist_transition_safe, submit_stage, record_unsigned,
  after_submit, record_submitted, advance_if, finish, record_failure, release_if,
}
use igra_foundry_sdk.Store.Lock.InOrder.{quiet, leased, acquire_in_order}
use igra_foundry_sdk.Transport.Send.Unlock.{mark-locks}

mark-tx_map :
    (db : Db) (sender : Text) (nonce now : ℕ)
    → (mark_submitted_in_order_nonce no_faults db sender nonce now).1.tx_map ≡ db.tx_map
unfolding mark_submitted_in_order_nonce transaction exec advance_expected set_expected
mark-tx_map db sender nonce now = ground arith

seen-locks :
    (row : Option NonceRow) (db : Db) (sender : Text) (nonce now : ℕ)
    → (seen row db sender nonce now).sender_locks ≡ db.sender_locks
unfolding set_expected
seen-locks none db sender nonce now = refl
seen-locks (some row) db sender nonce now = refl

expected-seen :
    (row : Option NonceRow) (db : Db) (sender : Text) (nonce now : ℕ)
    → find sender db.sender_nonce_state ≡ row
    → expected_of row nonce ≡ nonce
    → nonce ≤ u64_max
    → expected (seen row db sender nonce now) sender nonce ≡ nonce
unfolding set_expected
expected-seen none db sender nonce now e next fits =
    expected-set_expected db sender sender nonce now nonce fits ∙ rw (text_eq_refl sender)
expected-seen (some row) db sender nonce now e next fits = rw e next

-- The owner's own lease, which it has just taken, is deleted.
find-released :
    (locks : Table LockRow) (sender owner_id : Text) (row : LockRow)
    → row.owner_id ≡ owner_id
    → Unique locks
    → find sender (
        delete_where
          (λ k (r : LockRow). text_eq k sender && text_eq r.owner_id owner_id)
          (upsert sender row locks))
      ≡ none
find-released locks sender owner_id row own u =
    find-delete_where _ sender (upsert sender row locks) (upsert-Unique sender row locks u)
    ∙ (rw (
      find-upsert sender sender row locks,
      text_eq_refl sender,
      own,
      text_eq_refl owner_id,
      text_eq_refl sender,
    ))

-- Nothing comes between the calls of the send, and none of them fails.
abbrev pub calm :
    (ℕ → ℕ)
    → ℕ
    → (IgraSubmitRequest → Result Text IgraSubmitResult)
    → (Text → Result Text Text)
    → SendWorld
calm clock start_ms submit respond = record {
  calls = λ k. record { interference = λ db. db; now_ms = clock k; faults = no_faults };
  lock_opening = no_faults;
  lock_start_ms = start_ms;
  lock_rounds = quiet start_ms ∷ [];
  lock_join_error = none;
  submit = submit;
  respond = respond;
}

module _ (t : TrackedSend) (clock : ℕ → ℕ) (start_ms : ℕ)
    (submit : IgraSubmitRequest → Result Text IgraSubmitResult)
    (respond : Text → Result Text Text) where
  abbrev world : SendWorld
  world = calm clock start_ms submit respond

  -- The tables after the lock, and what the send knows then.
  abbrev after_received : Db → Db
  after_received db =
      write_row t.store db (update_of t received_raw_l2 none none none none false) (clock 0)

  abbrev under_lease : Db → Db
  under_lease db =
      leased t.store.sender_lock_timeout_secs (after_received db) t.sender t.lock_owner_id
        t.l2_nonce start_ms

  abbrev holding : Db → Progress
  holding db = record {
    db = under_lease db;
    events = persisted (update_of t received_raw_l2 none none none none false) ∷ [];
    lock_acquired = true;
    in_order_submit = true;
    replacement = none;
  }

  pub lock_stage-holding :
      (db : Db)
      → can_acquire (find t.sender db.sender_locks) t.lock_owner_id start_ms ≡ true
      → expected db t.sender t.l2_nonce ≡ t.l2_nonce
      → start_ms < saturating_add start_ms (timeout_ms t.store.sender_lock_timeout_secs)
      → lock_stage world (some t) (start db) ≡ some (ok tt, holding db)
  unfolding lock_stage persist_transition_safe persist_transition transaction exec write_row locked
      after_lock
  lock_stage-holding db free next early = rw (
      acquire_in_order t.store.sender_lock_timeout_secs start_ms (after_received db) t.sender
        t.lock_owner_id t.l2_nonce t.l2_tx_hash early free next)

  abbrev unsigned_update : TxLifecycleUpdate
  unsigned_update = update_of t kaspa_unsigned_created none none none none false

  abbrev mined_update : IgraSubmitResult → TxLifecycleUpdate
  mined_update res = update_of t kaspa_prefix_mined (some res.payload_nonce) none none none false

  abbrev signed_update : IgraSubmitResult → TxLifecycleUpdate
  signed_update res = update_of t kaspa_signed (some res.payload_nonce) none none none false

  abbrev broadcast_update : IgraSubmitResult → TxLifecycleUpdate
  broadcast_update res =
      update_of t kaspa_broadcasted (some res.payload_nonce) (some res.kaspa_tx_id) none none false

  -- The rows of the submission, in their order.
  abbrev before_broadcast : IgraSubmitResult → Db → Db
  before_broadcast res db =
      write_row t.store
        (write_row t.store (write_row t.store db unsigned_update (clock 2)) (mined_update res)
          (clock 3))
        (signed_update res) (clock 4)

  abbrev after_broadcast : IgraSubmitResult → Db → Db
  after_broadcast res db =
      write_row t.store (before_broadcast res db) (broadcast_update res) (clock 5)

  abbrev after_mark : IgraSubmitResult → Db → Db
  after_mark res db =
      (mark_submitted_in_order_nonce no_faults (after_broadcast res db) t.sender t.l2_nonce
        (clock 6)).1

  pub submit_stage-calm :
      (request : IgraSubmitRequest) (res : IgraSubmitResult) (payload : Text) (db : Db)
      → submit request ≡ ok res
      → respond request.l2_tx_hash ≡ ok payload
      → (r : Progress) × (submit_stage world (some t) request (holding db) ≡ (ok payload, r))
        × (r.db ≡ after_mark res (under_lease db))
        × (r.lock_acquired ≡ true)
  unfolding submit_stage record_unsigned persist_transition_safe persist_transition transaction exec
      after_submit record_submitted advance_if
  submit_stage-calm request res payload db sub resp =
      let p = record_unsigned world (some t) (holding db) in
      let asked = record p { events = p.events ++ submitted request ∷ [] } in
      (record_submitted world (some t) res asked, rw (sub, after_submit, resp), refl, refl)

  -- What the whole send leaves.
  abbrev pub after_send : IgraSubmitResult → Db → Db
  after_send res db =
      (release_sender_lock no_faults (after_mark res (under_lease db)) t.sender t.lock_owner_id).1

  pub finish-calm :
      (payload : Text) (db : Db) (p : Progress)
      → p.db ≡ db
      → p.lock_acquired ≡ true
      → (r : Progress) × (finish world (some t) (ok payload, p) ≡ (ok payload, r))
        × (r.db ≡ (release_sender_lock no_faults db t.sender t.lock_owner_id).1)
  unfolding finish record_failure
  finish-calm payload db p same held = (
    release_if true t (world.calls 8) p,
    rw held,
    ap (λ d. (release_sender_lock no_faults d t.sender t.lock_owner_id).1) same,
  )

  pub after_send-row :
      (res : IgraSubmitResult) (db : Db)
      → (row : TxRow) × (find t.l2_tx_hash (after_send res db).tx_map ≡ some row)
        × (row.state ≡ as_str kaspa_broadcasted)
        × (row.kaspa_tx_id ≡ some res.kaspa_tx_id)
  unfolding release_sender_lock transaction exec delete_lease row_of write_row
  after_send-row res db =
      let db₅ = before_broadcast res (under_lease db) in
      let row = row_of t.store (broadcast_update res) (find t.l2_tx_hash db₅.tx_map) (clock 5) in
      (
        row,
        ap (find t.l2_tx_hash)
              (mark-tx_map (after_broadcast res (under_lease db)) t.sender t.l2_nonce (clock 6))
            ∙ (find-upsert t.l2_tx_hash t.l2_tx_hash row db₅.tx_map
                ∙ rw (text_eq_refl t.l2_tx_hash)),
        refl,
        refl,
      )

  pub after_send-expected :
      (res : IgraSubmitResult) (db : Db) (d : ℕ)
      → expected db t.sender t.l2_nonce ≡ t.l2_nonce
      → t.l2_nonce < u64_max
      → expected (after_send res db) t.sender d ≡ t.l2_nonce + 1
  unfolding release_sender_lock transaction exec delete_lease write_row write_lease
  after_send-expected res db d next fits =
      let received = after_received db in
      let lease = lease_ms t.store.sender_lock_timeout_secs in
      let taken = write_lease received t.sender t.lock_owner_id start_ms lease in
      let seen_now =
        expected-seen (find t.sender db.sender_nonce_state) taken t.sender t.l2_nonce start_ms refl
          next (omega (arith, fits)) in
      expected-mark (after_broadcast res (under_lease db)) t.sender t.sender t.l2_nonce (clock 6) d
        fits
      ∙ (rw (text_eq_refl t.sender, seen_now, (==_iff t.l2_nonce t.l2_nonce).1 refl))

  pub after_send-lock :
      (res : IgraSubmitResult) (db : Db)
      → Unique db.sender_locks
      → find t.sender (after_send res db).sender_locks ≡ none
  unfolding release_sender_lock transaction exec delete_lease write_row write_lease
  after_send-lock res db u =
      rw
        (
          mark-locks no_faults (after_broadcast res (under_lease db)) t.sender t.l2_nonce (clock 6),
          seen-locks (find t.sender db.sender_nonce_state) _ t.sender t.l2_nonce start_ms,
        )
        (find-released db.sender_locks t.sender t.lock_owner_id _ refl u)
