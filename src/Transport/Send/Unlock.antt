-- ===== src/Transport/Send/Unlock.antt =====
-- crates/igra/src/transport.rs: the lease of a sender after a send.
use igra_foundry_sdk.Prelude.{
  ℕ, ◌≡◌, refl, sym, subst, ◌∙◌, true, false, ◌&&◌, Option, none, some, Result, ok, err, arith,
  find, Unique, unless,
}
use igra_foundry_sdk.Prelude.Text.{Text, text_eq, text_eq_refl}
use igra_foundry_sdk.Store.Types.{
  received_raw_l2, NonceOrdering, in_order, stale, TxLifecycleUpdate,
}
use igra_foundry_sdk.Store.Db.{Db, LockRow, Faults, no_faults, exec, transaction}
use igra_foundry_sdk.Store.Lifecycle.{IgraStore, persist_transition, write_row}
use igra_foundry_sdk.Store.Nonce.{mark_submitted_in_order_nonce, advance_expected, set_expected}
use igra_foundry_sdk.Store.Lock.{acquire_sender_lock_and_classify_nonce, release_sender_lock}
use igra_foundry_sdk.Store.Lock.Exclusion.{release_lem}
use igra_foundry_sdk.Submitter.Submit.{IgraSubmitRequest, IgraSubmitResult}
use igra_foundry_sdk.Transport.Route.{RawSendRequest}
use igra_foundry_sdk.Transport.Tracked.{
  persisted, update_of, TrackedSend, Settings, SendWorld, Event, Progress, start, tracked_send,
}
use igra_foundry_sdk.Transport.Send.{
  persist_transition_safe, after_lock, locked, lock_stage, request_of, advance_if, record_unsigned,
  record_submitted, after_submit, submit_stage, then_submit, record_failure, release_if, finish,
  inner_block, finish_some, raw_send,
}
use igra_foundry_sdk.Transport.Send.Trace.{received, fresh}

-- The lease on the sender, if there is one, is not the send's own.
abbrev pub Unlocked : TrackedSend → Option (Result Text Text × Progress) → Type 0
Unlocked t none = ⊥
Unlocked t (some (r, p)) =
    (row : LockRow)
    → find t.sender p.db.sender_locks ≡ some row
    → text_eq row.owner_id t.lock_owner_id ≡ false

not_own :
    (t : TrackedSend) (o : Option LockRow) (row : LockRow)
    → unless
        (λ j (r : LockRow). text_eq j t.sender && text_eq r.owner_id t.lock_owner_id)
        t.sender
        o
      ≡ some row
    → text_eq row.owner_id t.lock_owner_id ≡ false
not_own t none row h = absurd (cc)
not_own t (some r) row h = ground (arith, text_eq_refl t.sender, h)

persist-locks :
    (store : IgraStore) (faults : Faults) (db : Db) (update : TxLifecycleUpdate) (now : ℕ)
    → (persist_transition store faults db update now).1.sender_locks ≡ db.sender_locks
unfolding persist_transition transaction exec write_row
persist-locks store faults db update now = ground arith

pub mark-locks :
    (faults : Faults) (db : Db) (sender : Text) (nonce now : ℕ)
    → (mark_submitted_in_order_nonce faults db sender nonce now).1.sender_locks ≡ db.sender_locks
unfolding mark_submitted_in_order_nonce transaction exec advance_expected set_expected
mark-locks faults db sender nonce now = ground arith

-- A sender has one lease in the table.
abbrev Keyed : Db → Type 0
Keyed db = Unique db.sender_locks

module _ (w : SendWorld) (t : TrackedSend) (request : IgraSubmitRequest)
    (sound : (w.calls 8).faults ≡ no_faults)
    (keyed : (k : ℕ) (db : Db) → Keyed db → Keyed ((w.calls k).interference db)) where
  released_lem :
      (db : Db)
      → Keyed db
      → (row : LockRow)
      → find t.sender
          (release_sender_lock
            (w.calls 8).faults
            ((w.calls 8).interference db)
            t.sender
            t.lock_owner_id).1.sender_locks
        ≡ some row
      → text_eq row.owner_id t.lock_owner_id ≡ false
  released_lem db u row h =
      let d = (w.calls 8).interference db in
      let e = (release_lem d t.sender t.lock_owner_id t.sender (keyed 8 db u)).1 in
      let same =
        subst
          (λ f.
            find t.sender (release_sender_lock f d t.sender t.lock_owner_id).1.sender_locks
            ≡ some row)
          sound h in
      not_own t (find t.sender d.sender_locks) row (sym e ∙ same)

  persist-Keyed :
      (k : ℕ) (update : TxLifecycleUpdate) (db : Db)
      → Keyed db
      → Keyed
          (persist_transition t.store
            (w.calls k).faults
            ((w.calls k).interference db)
            update
            (w.calls k).now_ms).1
  persist-Keyed k update db u =
      subst Unique
        (sym (
          persist-locks t.store (w.calls k).faults ((w.calls k).interference db) update
            (w.calls k).now_ms))
        (keyed k db u)

  mark-Keyed :
      (k : ℕ) (db : Db)
      → Keyed db
      → Keyed
          (mark_submitted_in_order_nonce
            (w.calls k).faults
            ((w.calls k).interference db)
            t.sender
            t.l2_nonce
            (w.calls k).now_ms).1
  mark-Keyed k db u =
      subst Unique
        (sym (
          mark-locks (w.calls k).faults ((w.calls k).interference db) t.sender t.l2_nonce
            (w.calls k).now_ms))
        (keyed k db u)

  -- After KASPA_UNSIGNED_CREATED and the three states of a submission.
  three-Keyed :
      (a b c : TxLifecycleUpdate) (db : Db)
      → Keyed db
      → Keyed
          (persist_transition t.store
            (w.calls 5).faults
            ((w.calls 5).interference
              (persist_transition t.store
                (w.calls 4).faults
                ((w.calls 4).interference
                  (persist_transition t.store
                    (w.calls 3).faults
                    ((w.calls 3).interference db)
                    a
                    (w.calls 3).now_ms).1)
                b
                (w.calls 4).now_ms).1)
            c
            (w.calls 5).now_ms).1
  three-Keyed a b c db u = persist-Keyed 5 c _ (persist-Keyed 4 b _ (persist-Keyed 3 a db u))

  after_lock-Unlocked :
      (o : NonceOrdering) (s : Result Text IgraSubmitResult) (q : Result Text Text) (db : Db)
      (event : Event)
      → Keyed db
      → w.submit request ≡ s
      → w.respond request.l2_tx_hash ≡ q
      → Unlocked t (
          finish_some w (some t) (
            then_submit w
              (some t)
              request
              (some (after_lock t (w.calls 1) (ok o) (fresh db event)))))
  unfolding finish then_submit after_lock persist_transition_safe advance_if release_if
      record_unsigned record_submitted after_submit submit_stage record_failure
  after_lock-Unlocked (in_order e) (ok res) (ok x) db event u h h' =
      rw (h, h') (released_lem _ (mark-Keyed 6 _ (three-Keyed _ _ _ _ (persist-Keyed 2 _ db u))))
  after_lock-Unlocked (in_order e) (ok res) (err x) db event u h h' =
      rw (h, h')
        (released_lem _
          (persist-Keyed 7 _ _ (mark-Keyed 6 _ (three-Keyed _ _ _ _ (persist-Keyed 2 _ db u)))))
  after_lock-Unlocked (in_order e) (err m) q db event u h h' =
      rw h (released_lem _ (persist-Keyed 7 _ _ (persist-Keyed 2 _ db u)))
  after_lock-Unlocked (stale e true) (ok res) (ok x) db event u h h' =
      rw (h, h')
        (released_lem _ (three-Keyed _ _ _ _ (persist-Keyed 2 _ _ (persist-Keyed 1 _ db u))))
  after_lock-Unlocked (stale e true) (ok res) (err x) db event u h h' =
      rw (h, h')
        (released_lem _ (
          persist-Keyed 7 _ _ (three-Keyed _ _ _ _ (persist-Keyed 2 _ _ (persist-Keyed 1 _ db u)))))
  after_lock-Unlocked (stale e true) (err m) q db event u h h' =
      rw h (released_lem _ (persist-Keyed 7 _ _ (persist-Keyed 2 _ _ (persist-Keyed 1 _ db u))))
  after_lock-Unlocked (stale e false) (ok res) (ok x) db event u h h' =
      rw (h, h') (released_lem _ (three-Keyed _ _ _ _ (persist-Keyed 2 _ db u)))
  after_lock-Unlocked (stale e false) (ok res) (err x) db event u h h' =
      rw (h, h')
        (released_lem _ (persist-Keyed 7 _ _ (three-Keyed _ _ _ _ (persist-Keyed 2 _ db u))))
  after_lock-Unlocked (stale e false) (err m) q db event u h h' =
      rw h (released_lem _ (persist-Keyed 7 _ _ (persist-Keyed 2 _ db u)))

  locked-Unlocked :
      (db db' : Db) (o : NonceOrdering)
      → Keyed db'
      → w.lock_join_error ≡ none
      → Unlocked t (
          finish_some w
            (some t)
            (then_submit w (some t) request (locked t w (some (ok o, db')) (received w t db))))
  unfolding locked persist_transition_safe finish then_submit
  locked-Unlocked db db' o u joined =
      rw (joined, locked)
        (after_lock-Unlocked o (w.submit request) (w.respond request.l2_tx_hash) db'
          (persisted (update_of t received_raw_l2 none none none none false)) u refl refl)

-- A tracked send that got the sender's lock leaves no lease of its own on the sender, whether the
-- submission succeeds or not, whichever other statements fail and whatever other tasks do, when the
-- release itself succeeds and a sender has one lease in the table that the polling
-- leaves, and keeps having one whatever other tasks do.
pub raw_send_unlocks :
    (settings : Settings) (w : SendWorld) (id : Text) (send : RawSendRequest) (db db' : Db)
    (t : TrackedSend) (prefix : Text) (o : NonceOrdering)
    → settings.tx_id_prefix ≡ some prefix
    → tracked_send settings send.metadata id ≡ some t
    → w.lock_join_error ≡ none
    → acquire_sender_lock_and_classify_nonce t.store.sender_lock_timeout_secs w.lock_opening
        w.lock_start_ms w.lock_rounds
        (received w t db).db
        t.sender
        t.lock_owner_id
        t.l2_nonce
        t.l2_tx_hash
      ≡ some (ok o, db')
    → (w.calls 8).faults ≡ no_faults
    → ((k : ℕ) (d : Db) → Unique d.sender_locks → Unique ((w.calls k).interference d).sender_locks)
    → Unique db'.sender_locks
    → Unlocked t (raw_send settings w id send db)
unfolding raw_send inner_block lock_stage
raw_send_unlocks settings w id send db db' t prefix o has_prefix tracked joined polled sound keyed
      u =
    let request = request_of settings prefix send in
    rw has_prefix (
      subst
        (λ v. Unlocked t (finish_some w v (then_submit w v request (lock_stage w v (start db)))))
        (sym tracked) (rw polled (locked-Unlocked w t request sound keyed db db' o u joined)))
