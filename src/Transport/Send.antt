-- ===== src/Transport/Send.antt =====
-- crates/igra/src/transport.rs: the future that `request` returns for an intercepted raw send.
-- Between two of its operations on the store other tasks may do anything to the tables.
pub mod Trace
pub mod Unlock
pub mod Calm
pub mod Complete
use igra_foundry_sdk.Prelude.{
  Bool, true, false, Option, none, some, [], ◌∷◌, ◌++◌, Result, ok, err, if◌then◌else◌,
}
use igra_foundry_sdk.Prelude.Text.{Text, codes, decimal, contains}
use igra_foundry_sdk.Payload.Mine.{igra_mining_timeout_error_code}
use igra_foundry_sdk.Store.Types.{
  received_raw_l2, kaspa_unsigned_created, kaspa_prefix_mined, kaspa_signed, kaspa_broadcasted,
  failed_recoverable, blocked_nonce_gap, blocked_lock_timeout, stale_replacement_candidate,
  TxLifecycleUpdate, NonceOrdering, in_order, stale, IgraStoreError, blocked_gap, lock_timeout,
  nonce_overflow, sqlite, io, error_code, display, igra_nonce_gap_error_code,
  igra_nonce_replacement_candidate_error_code,
}
use igra_foundry_sdk.Store.Db.{Db}
use igra_foundry_sdk.Store.Lifecycle.{persist_transition}
use igra_foundry_sdk.Store.Lock.{acquire_sender_lock_and_classify_nonce, release_sender_lock}
use igra_foundry_sdk.Store.Nonce.{mark_submitted_in_order_nonce}
use igra_foundry_sdk.Submitter.Submit.{IgraSubmitRequest, IgraSubmitResult}
use igra_foundry_sdk.Transport.Route.{RawSendRequest}
use igra_foundry_sdk.Transport.Tracked.{
  TrackedSend, Settings, CallWorld, SendWorld, persisted, submitted, advanced, released, Progress,
  code_of, message_of, update_of, tracked_send, start,
}

-- `persist_transition_safe`: a failure is only logged.
unfoldable pub persist_transition_safe :
    TrackedSend → CallWorld → TxLifecycleUpdate → Progress → Progress
persist_transition_safe t call update p = record p {
  db = (persist_transition t.store call.faults (call.interference p.db) update call.now_ms).1;
  events = p.events ++ persisted update ∷ [];
}

unfoldable pub replacement_message : TrackedSend → Text
replacement_message t =
    codes "stale nonce replacement candidate for sender "
    ++ t.sender
    ++ codes " nonce "
    ++ decimal t.l2_nonce
    ++ codes " tx "
    ++ t.l2_tx_hash

-- The match on `lock_result`; `c` is the store operation in its branches.
pub after_lock :
    TrackedSend
    → CallWorld
    → Result IgraStoreError NonceOrdering
    → Progress
    → Result Text (Unit {0}) × Progress
unfolding persist_transition_safe
after_lock t c (ok (in_order e)) p =
    (ok tt, record p { lock_acquired = true; in_order_submit = true })
after_lock t c (ok (stale e false)) p = (ok tt, record p { lock_acquired = true })
after_lock t c (ok (stale e true)) p = (
  ok tt,
  persist_transition_safe t c
      (update_of t stale_replacement_candidate none none
        (some igra_nonce_replacement_candidate_error_code) (some (replacement_message t)) false)
      (record p {
        lock_acquired = true;
        replacement = some (igra_nonce_replacement_candidate_error_code, replacement_message t);
      }),
)
after_lock t c (err (lock_timeout s)) p = (
  err (display (lock_timeout s)),
  persist_transition_safe t c
      (update_of t blocked_lock_timeout none none (error_code (lock_timeout s))
        (some (display (lock_timeout s))) false)
      p,
)
after_lock t c (err (blocked_gap e got)) p = (
  err (display (blocked_gap e got)),
  persist_transition_safe t c
      (update_of t blocked_nonce_gap none none (some igra_nonce_gap_error_code)
        (some (display (blocked_gap e got))) false)
      p,
)
after_lock t c (err (nonce_overflow s n)) p = (ok tt, p)
after_lock t c (err (sqlite f)) p = (ok tt, p)
after_lock t c (err (io e)) p = (ok tt, p)

-- The outcome of the blocking task of the lock; `none` is a polling loop that was given too few rounds.
pub locked :
    TrackedSend
    → SendWorld
    → Option (Result IgraStoreError NonceOrdering × Db)
    → Progress
    → Option (Result Text (Unit {0}) × Progress)
unfolding after_lock
locked t w none p = none
locked t w (some (r, db)) p = elim w.lock_join_error [
  | none ↦ some (after_lock t (w.calls 1) r (record p { db = db }))
  | some e ↦ some (err (codes "IGRA sender lock task join failure: " ++ e), record p { db = db })
]

pub lock_stage :
    SendWorld → Option TrackedSend → Progress → Option (Result Text (Unit {0}) × Progress)
unfolding persist_transition_safe locked
lock_stage w none p = some (ok tt, p)
lock_stage w (some t) p =
    let p₀ =
      persist_transition_safe t (w.calls 0) (update_of t received_raw_l2 none none none none false)
        p in
    locked t w
      (acquire_sender_lock_and_classify_nonce t.store.sender_lock_timeout_secs w.lock_opening
        w.lock_start_ms w.lock_rounds p₀.db t.sender t.lock_owner_id t.l2_nonce t.l2_tx_hash)
      p₀

abbrev pub request_of : Settings → Text → RawSendRequest → IgraSubmitRequest
request_of settings tx_id_prefix send = record {
  l2_tx_hash = send.metadata.l2_tx_hash;
  raw_tx_bytes = send.raw_tx;
  tx_id_prefix = tx_id_prefix;
  mining_timeout_secs = settings.mining_timeout_secs;
  kaspa_rpc_url = settings.kaspa_rpc_url;
  kaspa_network = settings.kaspa_network;
  payload_compression = settings.payload_compression;
  kaspa_wallet = settings.kaspa_wallet;
}

pub advance_if : Bool → TrackedSend → CallWorld → Progress → Progress
advance_if false t call p = p
advance_if true t call p = record p {
  db =
      (mark_submitted_in_order_nonce call.faults (call.interference p.db) t.sender t.l2_nonce
        call.now_ms).1;
  events = p.events ++ advanced t.sender t.l2_nonce ∷ [];
}

pub record_unsigned : SendWorld → Option TrackedSend → Progress → Progress
unfolding persist_transition_safe
record_unsigned w none p = p
record_unsigned w (some t) p =
    persist_transition_safe t (w.calls 2)
      (update_of t kaspa_unsigned_created none none (code_of p.replacement)
        (message_of p.replacement) false)
      p

pub record_submitted : SendWorld → Option TrackedSend → IgraSubmitResult → Progress → Progress
unfolding persist_transition_safe advance_if
record_submitted w none res p = p
record_submitted w (some t) res p =
    let code = code_of p.replacement in
    let message = message_of p.replacement in
    let nonce = some res.payload_nonce in
    let p₃ =
      persist_transition_safe t (w.calls 3)
        (update_of t kaspa_prefix_mined nonce none code message false) p in
    let p₄ =
      persist_transition_safe t (w.calls 4) (update_of t kaspa_signed nonce none code message false)
        p₃ in
    let p₅ =
      persist_transition_safe t (w.calls 5)
        (update_of t kaspa_broadcasted nonce (some res.kaspa_tx_id) code message false) p₄ in
    advance_if p₅.in_order_submit t (w.calls 6) p₅

pub after_submit :
    SendWorld
    → Option TrackedSend
    → Text
    → Result Text IgraSubmitResult
    → Progress
    → Result Text Text × Progress
unfolding record_submitted
after_submit w tracked l2_tx_hash (err e) p = (err e, p)
after_submit w tracked l2_tx_hash (ok res) p =
    (w.respond l2_tx_hash, record_submitted w tracked res p)

pub submit_stage :
    SendWorld → Option TrackedSend → IgraSubmitRequest → Progress → Result Text Text × Progress
unfolding record_unsigned after_submit
submit_stage w tracked request p =
    let p₂ = record_unsigned w tracked p in
    after_submit w tracked request.l2_tx_hash (w.submit request)
      (record p₂ { events = p₂.events ++ submitted request ∷ [] })

pub then_submit :
    SendWorld
    → Option TrackedSend
    → IgraSubmitRequest
    → Option (Result Text (Unit {0}) × Progress)
    → Option (Result Text Text × Progress)
unfolding submit_stage
then_submit w tracked request none = none
then_submit w tracked request (some (err e, p)) = some (err e, p)
then_submit w tracked request (some (ok _, p)) = some (submit_stage w tracked request p)

failure_code : Text → Option Text
failure_code err_text =
    if contains err_text igra_mining_timeout_error_code
    then some igra_mining_timeout_error_code
    else none

pub record_failure : TrackedSend → CallWorld → Result Text Text → Progress → Progress
unfolding persist_transition_safe failure_code
record_failure t call (ok hash) p = p
record_failure t call (err e) p =
    persist_transition_safe t call
      (update_of t failed_recoverable none none (failure_code e) (some e) true) p

pub release_if : Bool → TrackedSend → CallWorld → Progress → Progress
release_if false t call p = p
release_if true t call p = record p {
  db = (release_sender_lock call.faults (call.interference p.db) t.sender t.lock_owner_id).1;
  events = p.events ++ released t.sender t.lock_owner_id ∷ [];
}

-- What stands behind the inner block, on every way out of it.
unfoldable pub finish :
    SendWorld → Option TrackedSend → Result Text Text × Progress → Result Text Text × Progress
unfolding record_failure release_if
finish w none (r, p) = (r, p)
finish w (some t) (r, p) =
    let p₇ = record_failure t (w.calls 7) r p in (r, release_if p₇.lock_acquired t (w.calls 8) p₇)

abbrev finish_some :
    SendWorld
    → Option TrackedSend
    → Option (Result Text Text × Progress)
    → Option (Result Text Text × Progress)
finish_some w tracked none = none
finish_some w tracked (some r) = some (finish w tracked r)

pub inner_block :
    Settings
    → SendWorld
    → Option TrackedSend
    → RawSendRequest
    → Db
    → Option (Result Text Text × Progress)
unfolding then_submit lock_stage
inner_block settings w tracked send db = elim settings.tx_id_prefix [
  | none ↦ some (err (codes "IGRA config error: `tx_id_prefix` is required"), start db)
  | some prefix ↦
      then_submit w tracked (request_of settings prefix send) (lock_stage w tracked (start db))
]

unfoldable pub raw_send :
    Settings → SendWorld → Text → RawSendRequest → Db → Option (Result Text Text × Progress)
unfolding inner_block finish tracked_send
raw_send settings w correlation_id send db =
    let tracked = tracked_send settings send.metadata correlation_id in
    finish_some w tracked (inner_block settings w tracked send db)
