-- ===== src/Transport/Tracked.antt =====
-- crates/igra/src/transport.rs: what a send carries, the world it meets, and the log it leaves.
use igra_foundry_sdk.Prelude.{ℕ, Bool, false, Option, none, some, List, [], ◌++◌, Result, take}
use igra_foundry_sdk.Prelude.Text.{Text, codes, decimal}
use igra_foundry_sdk.Config.{IgraKaspaWalletConfig}
use igra_foundry_sdk.Store.Types.{TxLifecycleState, TxLifecycleUpdate}
use igra_foundry_sdk.Store.Db.{Db, Faults}
use igra_foundry_sdk.Store.Lifecycle.{IgraStore}
use igra_foundry_sdk.Store.Lock.{Round}
use igra_foundry_sdk.Submitter.Submit.{IgraSubmitRequest, IgraSubmitResult}
use igra_foundry_sdk.Transport.Route.{RawTxMetadata}

pub record TrackedSend : Type 0 where
  pub store : IgraStore
  pub l2_tx_hash : Text
  pub sender : Text
  pub l2_nonce : ℕ
  pub correlation_id : Text
  pub lock_owner_id : Text

-- The settings of `IgraTransport` that the send reads.
pub record Settings : Type 0 where
  pub store : Option IgraStore
  pub tx_id_prefix : Option Text
  pub mining_timeout_secs : ℕ
  pub kaspa_rpc_url : Option Text
  pub kaspa_network : Option Text
  pub payload_compression : Option Text
  pub kaspa_wallet : IgraKaspaWalletConfig

-- Clock, process id and `REQUEST_COUNTER`; `digest` is the Keccak hash in hex.
unfoldable build_correlation_id : (Text → Text) → Text → ℕ → ℕ → ℕ → Text
build_correlation_id digest l2_tx_hash millis pid counter =
    let random_hex = take 8 (
      digest (
        l2_tx_hash
        ++ codes ":"
        ++ decimal millis
        ++ codes ":"
        ++ decimal pid
        ++ codes ":"
        ++ decimal counter)) in
    decimal millis
    ++ codes "-"
    ++ decimal pid
    ++ codes "-"
    ++ decimal counter
    ++ codes "-"
    ++ random_hex

build_lock_owner_id : Text → ℕ → Text → Text
build_lock_owner_id sender nonce correlation_id =
    sender ++ codes ":" ++ decimal nonce ++ codes ":" ++ correlation_id

unfoldable pub tracked_send : Settings → RawTxMetadata → Text → Option TrackedSend
unfolding build_lock_owner_id
tracked_send settings metadata correlation_id = elim settings.store [
  | none ↦ none
  | some store ↦ elim metadata.sender [
    | none ↦ none
    | some sender ↦ elim metadata.nonce [
      | none ↦ none
      | some nonce ↦ some (record {
        store = store;
        l2_tx_hash = metadata.l2_tx_hash;
        sender = sender;
        l2_nonce = nonce;
        correlation_id = correlation_id;
        lock_owner_id = build_lock_owner_id sender nonce correlation_id;
      })
    ]
  ]
]

-- What an operation on the store meets: the tables as other tasks left them, its clock, its failures. A
-- task that cannot be joined is only logged: it is an operation whose first call fails.
pub record CallWorld : Type 0 where
  pub interference : Db → Db
  pub now_ms : ℕ
  pub faults : Faults

-- The operations of a send have numbers: 0 for RECEIVED_RAW_L2, 1 for the states of the lock, 2 for
-- KASPA_UNSIGNED_CREATED, 3 to 5 for the states after the submission, 6 for the nonce, 7 for
-- FAILED_RECOVERABLE and 8 for the release.
pub record SendWorld : Type 0 where
  pub calls : ℕ → CallWorld
  pub lock_opening : Faults
  pub lock_start_ms : ℕ
  pub lock_rounds : List Round
  pub lock_join_error : Option Text
  pub submit : IgraSubmitRequest → Result Text IgraSubmitResult
  -- `success_l2_tx_hash_response`: the response in JSON, or why it cannot be written.
  pub respond : Text → Result Text Text

-- What a send did, in order.
pub data Event : Type 0 where
  persisted : TxLifecycleUpdate → Event
  submitted : IgraSubmitRequest → Event
  advanced : Text → ℕ → Event
  released : Text → Text → Event

-- `lock_acquired`, `in_order_submit` and `replacement_observation` with the tables.
pub record Progress : Type 0 where
  pub db : Db
  pub events : List Event
  pub lock_acquired : Bool
  pub in_order_submit : Bool
  pub replacement : Option (Text × Text)

abbrev pub code_of : Option (Text × Text) → Option Text
code_of none = none
code_of (some (code, message)) = some code

abbrev pub message_of : Option (Text × Text) → Option Text
message_of none = none
message_of (some (code, message)) = some message

abbrev pub update_of :
    TrackedSend
    → TxLifecycleState
    → Option ℕ
    → Option Text
    → Option Text
    → Option Text
    → Bool
    → TxLifecycleUpdate
update_of t state payload_nonce kaspa_tx_id code message increment = record {
  l2_tx_hash = t.l2_tx_hash;
  sender = t.sender;
  l2_nonce = t.l2_nonce;
  payload_nonce = payload_nonce;
  kaspa_tx_id = kaspa_tx_id;
  state = state;
  correlation_id = t.correlation_id;
  last_error_code = code;
  last_error_message = message;
  increment_attempts = increment;
}

abbrev pub start : Db → Progress
start db = record {
  db = db;
  events = [];
  lock_acquired = false;
  in_order_submit = false;
  replacement = none;
}
