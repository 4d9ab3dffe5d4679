-- ===== src/Store/Types.antt =====
-- crates/igra/src/store.rs: lifecycle states, nonce orderings, records and errors.
use igra_foundry_sdk.Prelude.{
  ℕ, ◌≡◌, refl, Bool, true, false, Option, none, some, ◌++◌, if◌then◌else◌,
}
use igra_foundry_sdk.Prelude.Text.{Text, codes, text_eq, decimal}

abbrev pub igra_nonce_gap_error_code : Text
igra_nonce_gap_error_code = codes "IGRA_NONCE_001"

abbrev pub igra_nonce_lock_timeout_error_code : Text
igra_nonce_lock_timeout_error_code = codes "IGRA_NONCE_002"

abbrev pub igra_nonce_overflow_error_code : Text
igra_nonce_overflow_error_code = codes "IGRA_NONCE_003"

abbrev pub igra_nonce_replacement_candidate_error_code : Text
igra_nonce_replacement_candidate_error_code = codes "IGRA_NONCE_004"

pub data TxLifecycleState : Type 0 where
  received_raw_l2 kaspa_unsigned_created kaspa_prefix_mined kaspa_signed : TxLifecycleState
  kaspa_broadcasted failed_recoverable blocked_nonce_gap : TxLifecycleState
  blocked_lock_timeout stale_replacement_candidate : TxLifecycleState

unfoldable pub as_str : TxLifecycleState → Text
as_str received_raw_l2 = codes "RECEIVED_RAW_L2"
as_str kaspa_unsigned_created = codes "KASPA_UNSIGNED_CREATED"
as_str kaspa_prefix_mined = codes "KASPA_PREFIX_MINED"
as_str kaspa_signed = codes "KASPA_SIGNED"
as_str kaspa_broadcasted = codes "KASPA_BROADCASTED"
as_str failed_recoverable = codes "FAILED_RECOVERABLE"
as_str blocked_nonce_gap = codes "BLOCKED_NONCE_GAP"
as_str blocked_lock_timeout = codes "BLOCKED_LOCK_TIMEOUT"
as_str stale_replacement_candidate = codes "STALE_REPLACEMENT_CANDIDATE"

unfoldable pub parse : Text → Option TxLifecycleState
parse value =
    if text_eq value (codes "RECEIVED_RAW_L2")
    then some received_raw_l2
    else if text_eq value (codes "KASPA_UNSIGNED_CREATED")
    then some kaspa_unsigned_created
    else if text_eq value (codes "KASPA_PREFIX_MINED")
    then some kaspa_prefix_mined
    else if text_eq value (codes "KASPA_SIGNED")
    then some kaspa_signed
    else if text_eq value (codes "KASPA_BROADCASTED")
    then some kaspa_broadcasted
    else if text_eq value (codes "FAILED_RECOVERABLE")
    then some failed_recoverable
    else if text_eq value (codes "BLOCKED_NONCE_GAP")
    then some blocked_nonce_gap
    else if text_eq value (codes "BLOCKED_LOCK_TIMEOUT")
    then some blocked_lock_timeout
    else if text_eq value (codes "STALE_REPLACEMENT_CANDIDATE")
    then some stale_replacement_candidate
    else none

-- The stored text of a lifecycle state is read back as that state.
pub parse-as_str : (s : TxLifecycleState) → parse (as_str s) ≡ some s
unfolding parse as_str text_eq
parse-as_str received_raw_l2 = refl
parse-as_str _ = refl

-- The nonce of an incoming transaction against the one that is expected.
pub data NonceOrdering : Type 0 where
  in_order : ℕ → NonceOrdering
  stale : ℕ → Bool → NonceOrdering

-- What SQLite reports: a result code and a message.
pub data ErrorCode : Type 0 where
  database_busy database_locked other_code : ErrorCode

pub record SqliteFailure : Type 0 where
  pub code : ErrorCode
  pub message : Text

pub data IgraStoreError : Type 0 where
  blocked_gap : ℕ → ℕ → IgraStoreError
  lock_timeout : Text → IgraStoreError
  nonce_overflow : Text → ℕ → IgraStoreError
  sqlite : SqliteFailure → IgraStoreError
  io : Text → IgraStoreError

unfoldable pub error_code : IgraStoreError → Option Text
error_code (blocked_gap expected got) = some igra_nonce_gap_error_code
error_code (lock_timeout sender) = some igra_nonce_lock_timeout_error_code
error_code (nonce_overflow sender nonce) = some igra_nonce_overflow_error_code
error_code (sqlite e) = none
error_code (io e) = none

-- The `#[error(...)]` texts.
unfoldable pub display : IgraStoreError → Text
display (blocked_gap expected got) =
    igra_nonce_gap_error_code
    ++ codes ": BLOCKED_NONCE_GAP (expected "
    ++ decimal expected
    ++ codes ", got "
    ++ decimal got
    ++ codes ")"
display (lock_timeout sender) =
    igra_nonce_lock_timeout_error_code ++ codes ": sender lock timed out for " ++ sender
display (nonce_overflow sender nonce) =
    igra_nonce_overflow_error_code
    ++ codes ": next expected nonce overflow for sender "
    ++ sender
    ++ codes " at nonce "
    ++ decimal nonce
display (sqlite e) = codes "IGRA store SQLite error: " ++ e.message
display (io e) = codes "IGRA store I/O error: " ++ e

unfoldable pub is_retryable_busy_error : IgraStoreError → Bool
is_retryable_busy_error (sqlite e) = elim e.code [
  | database_busy ↦ true
  | database_locked ↦ true
  | other_code ↦ false
]
is_retryable_busy_error _ = false

-- A row of `tx_map` as `load_tx` returns it.
pub record TxMapRecord : Type 0 where
  pub l2_tx_hash : Text
  pub sender : Text
  pub l2_nonce : ℕ
  pub payload_nonce : Option ℕ
  pub kaspa_tx_id : Option Text
  pub state : TxLifecycleState
  pub chain_id : ℕ
  pub kaspa_network : Text
  pub el_rpc_fingerprint : Option Text
  pub kaspa_rpc_fingerprint : Option Text
  pub correlation_id : Text
  pub attempts : ℕ
  pub last_error_code : Option Text
  pub last_error_message : Option Text
  pub created_at_ms : ℕ
  pub updated_at_ms : ℕ

pub record TxLifecycleUpdate : Type 0 where
  pub l2_tx_hash : Text
  pub sender : Text
  pub l2_nonce : ℕ
  pub payload_nonce : Option ℕ
  pub kaspa_tx_id : Option Text
  pub state : TxLifecycleState
  pub correlation_id : Text
  pub last_error_code : Option Text
  pub last_error_message : Option Text
  pub increment_attempts : Bool
