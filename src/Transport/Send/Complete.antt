-- ===== src/Transport/Send/Complete.antt =====
-- crates/igra/src/transport.rs: a send in order that meets no failure, from the lock to the release.
use igra_foundry_sdk.Prelude.{
  ℕ, ◌+◌, ◌<◌, ◌≡◌, sym, subst, true, none, some, Result, ok, find, Unique,
}
use igra_foundry_sdk.Prelude.Text.{Text}
use igra_foundry_sdk.Prelude.Words.{u64_max, saturating_add}
use igra_foundry_sdk.Store.Types.{kaspa_broadcasted, as_str}
use igra_foundry_sdk.Store.Db.{Db, TxRow}
use igra_foundry_sdk.Store.Nonce.Classification.{expected}
use igra_foundry_sdk.Store.Lock.{can_acquire, timeout_ms}
use igra_foundry_sdk.Submitter.Submit.{IgraSubmitRequest, IgraSubmitResult}
use igra_foundry_sdk.Transport.Route.{RawSendRequest}
use igra_foundry_sdk.Transport.Tracked.{TrackedSend, Progress, Settings, tracked_send}
use igra_foundry_sdk.Transport.Send.{request_of, raw_send, inner_block, then_submit}
use igra_foundry_sdk.Transport.Send.Calm.{
  calm, after_send, after_send-row, after_send-expected, after_send-lock, lock_stage-holding,
  submit_stage-calm, finish-calm,
}

-- What a send in order leaves: the transaction is recorded as broadcast under its Kaspa id, the
-- next nonce is expected, and the sender is free.
pub record IsComplete (t : TrackedSend) (res : IgraSubmitResult) (db : Db) : Type 0 where
  pub row : TxRow
  pub found : find t.l2_tx_hash db.tx_map ≡ some row
  pub state : row.state ≡ as_str kaspa_broadcasted
  pub kaspa_tx_id : row.kaspa_tx_id ≡ some res.kaspa_tx_id
  pub next : (d : ℕ) → expected db t.sender d ≡ t.l2_nonce + 1
  pub free : find t.sender db.sender_locks ≡ none

after_send-IsComplete :
    (t : TrackedSend) (clock : ℕ → ℕ) (start_ms : ℕ)
    (submit : IgraSubmitRequest → Result Text IgraSubmitResult) (respond : Text → Result Text Text)
    (res : IgraSubmitResult) (db : Db)
    → Unique db.sender_locks
    → expected db t.sender t.l2_nonce ≡ t.l2_nonce
    → t.l2_nonce < u64_max
    → IsComplete t res (after_send t clock start_ms submit respond res db)
after_send-IsComplete t clock start_ms submit respond res db u next fits =
    let (row, found, state, id) = after_send-row t clock start_ms submit respond res db in
    record {
      row = row;
      found = found;
      state = state;
      kaspa_tx_id = id;
      next = λ d. after_send-expected t clock start_ms submit respond res db d next fits;
      free = after_send-lock t clock start_ms submit respond res db u;
    }

-- A tracked send whose nonce is the expected one, whose sender is free, whose calls on the store
-- do not fail and whose submission succeeds answers the hash, and leaves the transaction recorded
-- as broadcast with its Kaspa id, the next nonce expected, and the sender free. Nothing else
-- happens to the tables meanwhile, and the lock has a timeout above zero.
pub raw_send-IsComplete :
    (settings : Settings) (send : RawSendRequest) (t : TrackedSend) (correlation_id prefix : Text)
    (clock : ℕ → ℕ) (start_ms : ℕ) (submit : IgraSubmitRequest → Result Text IgraSubmitResult)
    (respond : Text → Result Text Text) (res : IgraSubmitResult) (payload : Text) (db : Db)
    → settings.tx_id_prefix ≡ some prefix
    → tracked_send settings send.metadata correlation_id ≡ some t
    → Unique db.sender_locks
    → can_acquire (find t.sender db.sender_locks) t.lock_owner_id start_ms ≡ true
    → expected db t.sender t.l2_nonce ≡ t.l2_nonce
    → t.l2_nonce < u64_max
    → start_ms < saturating_add start_ms (timeout_ms t.store.sender_lock_timeout_secs)
    → submit (request_of settings prefix send) ≡ ok res
    → respond send.metadata.l2_tx_hash ≡ ok payload
    → (p : Progress) × (raw_send settings
          (calm clock start_ms submit respond)
          correlation_id
          send
          db
        ≡ some (ok payload, p))
      × IsComplete t res p.db
unfolding raw_send inner_block then_submit
raw_send-IsComplete settings send t correlation_id prefix clock start_ms submit respond res payload
      db has_prefix tracked u free next fits early sub resp =
    let request = request_of settings prefix send in
    let lock = lock_stage-holding t clock start_ms submit respond db free next early in
    let (p, stage, same, held) =
      submit_stage-calm t clock start_ms submit respond request res payload db sub resp in
    let (r, done, left) = finish-calm t clock start_ms submit respond payload _ p same held in
    (
      r,
      rw (tracked, has_prefix, lock, stage, done),
      subst (IsComplete t res) (sym left)
          (after_send-IsComplete t clock start_ms submit respond res db u next fits),
    )
