-- ===== src/Transport/Send/Trace.antt =====
-- crates/igra/src/transport.rs: the order of what an intercepted send does, by the outcome of the
-- lock and of the submission.
use igra_foundry_sdk.Prelude.{
  ◌≡◌, refl, sym, subst, Bool, true, false, Option, none, some, List, [], ◌∷◌, ◌++◌, Result, ok,
  err, map,
}
use igra_foundry_sdk.Prelude.Text.{Text}
use igra_foundry_sdk.Store.Types.{
  TxLifecycleState, received_raw_l2, kaspa_unsigned_created, kaspa_prefix_mined, kaspa_signed,
  kaspa_broadcasted, failed_recoverable, blocked_nonce_gap, blocked_lock_timeout,
  stale_replacement_candidate, NonceOrdering, in_order, stale, IgraStoreError, blocked_gap,
  lock_timeout, nonce_overflow, sqlite, io,
}
use igra_foundry_sdk.Store.Db.{Db}
use igra_foundry_sdk.Store.Lock.{acquire_sender_lock_and_classify_nonce}
use igra_foundry_sdk.Submitter.Submit.{IgraSubmitRequest, IgraSubmitResult}
use igra_foundry_sdk.Transport.Route.{RawSendRequest}
use igra_foundry_sdk.Transport.Tracked.{
  TrackedSend, Settings, SendWorld, Event, persisted, submitted, advanced, released, Progress,
  update_of, start, tracked_send,
}
use igra_foundry_sdk.Transport.Send.{
  persist_transition_safe, after_lock, locked, lock_stage, request_of, advance_if, record_unsigned,
  record_submitted, after_submit, submit_stage, then_submit, record_failure, release_if, finish,
  inner_block, finish_some, raw_send,
}

-- An event without its data.
pub data Kind : Type 0 where
  entered : TxLifecycleState → Kind
  submission advance release : Kind

abbrev kind_of : Event → Kind
kind_of (persisted update) = entered update.state
kind_of (submitted request) = submission
kind_of (advanced sender nonce) = advance
kind_of (released sender owner) = release

abbrev pub kinds : Option (Result Text Text × Progress) → Option (List Kind)
kinds none = none
kinds (some (r, p)) = some (map kind_of p.events)

abbrev pub is_ok : {E A : Type 0} → Result E A → Bool
is_ok (ok a) = true
is_ok (err e) = false

-- A response that cannot be written is a failure like any other.
abbrev after_response : Bool → List Kind → List Kind
after_response true last = last
after_response false last = entered failed_recoverable ∷ last

-- After KASPA_UNSIGNED_CREATED and the submission: `sent` is whether it succeeded, `responded` whether
-- the response could be written, `step` and `last` what an in-order nonce and a lock add.
abbrev after_submission : Bool → Bool → List Kind → List Kind → List Kind
after_submission true responded step last =
    entered kaspa_unsigned_created
    ∷ submission
    ∷ entered kaspa_prefix_mined
    ∷ entered kaspa_signed
    ∷ entered kaspa_broadcasted
    ∷ (step ++ after_response responded last)
after_submission false responded step last =
    entered kaspa_unsigned_created ∷ submission ∷ entered failed_recoverable ∷ last

-- The steps of a send, by the answer of the lock.
abbrev pub lifecycle : Result IgraStoreError NonceOrdering → Bool → Bool → List Kind
lifecycle (ok (in_order e)) sent responded =
    after_submission sent responded (advance ∷ []) (release ∷ [])
lifecycle (ok (stale e true)) sent responded =
    entered stale_replacement_candidate ∷ after_submission sent responded [] (release ∷ [])
lifecycle (ok (stale e false)) sent responded = after_submission sent responded [] (release ∷ [])
lifecycle (err (lock_timeout s)) sent responded =
    entered blocked_lock_timeout ∷ entered failed_recoverable ∷ []
lifecycle (err (blocked_gap e g)) sent responded =
    entered blocked_nonce_gap ∷ entered failed_recoverable ∷ []
lifecycle (err (nonce_overflow s n)) sent responded = after_submission sent responded [] []
lifecycle (err (sqlite f)) sent responded = after_submission sent responded [] []
lifecycle (err (io e)) sent responded = after_submission sent responded [] []

abbrev pub fresh : Db → Event → Progress
fresh db event = record {
  db = db;
  events = event ∷ [];
  lock_acquired = false;
  in_order_submit = false;
  replacement = none;
}

module _ (w : SendWorld) (t : TrackedSend) (request : IgraSubmitRequest) (db : Db)
    (event : Event) where
  kinds_from_lock :
      (r : Result IgraStoreError NonceOrdering) (s : Result Text IgraSubmitResult)
      (q : Result Text Text)
      → w.submit request ≡ s
      → w.respond request.l2_tx_hash ≡ q
      → kinds (
          finish_some w
            (some t)
            (then_submit w (some t) request (some (after_lock t (w.calls 1) r (fresh db event)))))
        ≡ some (kind_of event ∷ lifecycle r (is_ok s) (is_ok q))
  unfolding finish then_submit after_lock persist_transition_safe advance_if release_if
      record_unsigned record_submitted after_submit submit_stage record_failure
  kinds_from_lock (ok (in_order e)) (ok res) (ok x) h h' = rw (h, h')
  kinds_from_lock (ok (in_order e)) (ok res) (err x) h h' = rw (h, h')
  kinds_from_lock (ok (in_order e)) (err m) q h h' = rw h
  kinds_from_lock (ok (stale e true)) (ok res) (ok x) h h' = rw (h, h')
  kinds_from_lock (ok (stale e true)) (ok res) (err x) h h' = rw (h, h')
  kinds_from_lock (ok (stale e true)) (err m) q h h' = rw h
  kinds_from_lock (ok (stale e false)) (ok res) (ok x) h h' = rw (h, h')
  kinds_from_lock (ok (stale e false)) (ok res) (err x) h h' = rw (h, h')
  kinds_from_lock (ok (stale e false)) (err m) q h h' = rw h
  kinds_from_lock (err (lock_timeout s)) r q h h' = refl
  kinds_from_lock (err (blocked_gap e g)) r q h h' = refl
  kinds_from_lock (err (nonce_overflow s n)) (ok res) (ok x) h h' = rw (h, h')
  kinds_from_lock (err (nonce_overflow s n)) (ok res) (err x) h h' = rw (h, h')
  kinds_from_lock (err (nonce_overflow s n)) (err m) q h h' = rw h
  kinds_from_lock (err (sqlite f)) (ok res) (ok x) h h' = rw (h, h')
  kinds_from_lock (err (sqlite f)) (ok res) (err x) h h' = rw (h, h')
  kinds_from_lock (err (sqlite f)) (err m) q h h' = rw h
  kinds_from_lock (err (io e)) (ok res) (ok x) h h' = rw (h, h')
  kinds_from_lock (err (io e)) (ok res) (err x) h h' = rw (h, h')
  kinds_from_lock (err (io e)) (err m) q h h' = rw h

-- The tables that the polling for the lock starts from.
abbrev pub received : SendWorld → TrackedSend → Db → Progress
received w t db =
    persist_transition_safe t (w.calls 0) (update_of t received_raw_l2 none none none none false)
      (start db)

joined_trace :
    (w : SendWorld) (t : TrackedSend) (request : IgraSubmitRequest) (db db' : Db)
    (r : Result IgraStoreError NonceOrdering)
    → w.lock_join_error ≡ none
    → kinds (
        finish_some w
          (some t)
          (then_submit w (some t) request (locked t w (some (r, db')) (received w t db))))
      ≡ some (
          entered received_raw_l2
          ∷ lifecycle r (is_ok (w.submit request)) (is_ok (w.respond request.l2_tx_hash)))
unfolding locked persist_transition_safe finish then_submit
joined_trace w t request db db' r joined = rw joined (
    kinds_from_lock w t request db'
      (persisted (update_of t received_raw_l2 none none none none false)) r (w.submit request)
      (w.respond request.l2_tx_hash) refl refl)

tracked_trace :
    (w : SendWorld) (t : TrackedSend) (request : IgraSubmitRequest) (db db' : Db)
    (tracked : Option TrackedSend) (r : Result IgraStoreError NonceOrdering)
    → w.lock_join_error ≡ none
    → acquire_sender_lock_and_classify_nonce t.store.sender_lock_timeout_secs w.lock_opening
        w.lock_start_ms w.lock_rounds
        (received w t db).db
        t.sender
        t.lock_owner_id
        t.l2_nonce
        t.l2_tx_hash
      ≡ some (r, db')
    → some t ≡ tracked
    → kinds
        (finish_some w tracked (then_submit w tracked request (lock_stage w tracked (start db))))
      ≡ some (
          entered received_raw_l2
          ∷ lifecycle r (is_ok (w.submit request)) (is_ok (w.respond request.l2_tx_hash)))
unfolding lock_stage
tracked_trace w t request db db' tracked r joined polled same =
    subst
      (λ o.
        kinds (finish_some w o (then_submit w o request (lock_stage w o (start db))))
        ≡ some (
            entered received_raw_l2
            ∷ lifecycle r (is_ok (w.submit request)) (is_ok (w.respond request.l2_tx_hash))))
      same (rw polled (joined_trace w t request db db' r joined))

-- A tracked send with a prefix, whose lock task is joined and whose polling ends, does exactly
-- the steps of its lifecycle after RECEIVED_RAW_L2, in that order: a gap or a timeout submits
-- nothing and ends in FAILED_RECOVERABLE; a failed submission, or a response that cannot be
-- written, ends in it too; a send that holds the lock releases it last, whatever fails; only an
-- in-order nonce that was submitted is advanced. This holds whatever other tasks do to the tables
-- and whichever statements fail.
pub raw_send_trace :
    (settings : Settings) (w : SendWorld) (id : Text) (send : RawSendRequest) (db db' : Db)
    (t : TrackedSend) (prefix : Text) (r : Result IgraStoreError NonceOrdering)
    → settings.tx_id_prefix ≡ some prefix
    → tracked_send settings send.metadata id ≡ some t
    → w.lock_join_error ≡ none
    → acquire_sender_lock_and_classify_nonce t.store.sender_lock_timeout_secs w.lock_opening
        w.lock_start_ms w.lock_rounds
        (received w t db).db
        t.sender
        t.lock_owner_id
        t.l2_nonce
        t.l2_tx_hash
      ≡ some (r, db')
    → kinds (raw_send settings w id send db)
      ≡ some (
          entered received_raw_l2
          ∷ lifecycle r
              (is_ok (w.submit (request_of settings prefix send)))
              (is_ok (w.respond send.metadata.l2_tx_hash)))
unfolding raw_send inner_block
raw_send_trace settings w id send db db' t prefix r has_prefix tracked joined polled =
    rw has_prefix (
      tracked_trace w t (request_of settings prefix send) db db'
        (tracked_send settings send.metadata id) r joined polled (sym tracked))
