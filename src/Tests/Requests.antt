-- ===== src/Tests/Requests.antt =====
-- crates/igra/src/transport.rs, errors.rs: packets, and a raw send from its first state to its last.
use igra_foundry_sdk.Prelude.{
  Unique, upsert, ◌≡◌, ◌≢◌, refl, ◌||◌, not, true, false, Option, none, some, [], ◌∷◌, Result, ok,
  find,
}
use igra_foundry_sdk.Prelude.Text.{codes, text_eq, one_of, decimal}
use igra_foundry_sdk.Prelude.Words.{saturating_add, saturating_mul}
use igra_foundry_sdk.Store.Nonce.{classify_nonce_in_tx}
use igra_foundry_sdk.Store.Lifecycle.{persist_transition}
use igra_foundry_sdk.Config.{IgraConfigError, default_wallet}
use igra_foundry_sdk.Errors.{
  IgraErrorCatalogEntry, error_catalog_entry, ensure_supported_igra_signer_flow, signer_flow_ok,
}
use igra_foundry_sdk.Store.Types.{received_raw_l2, in_order, IgraStoreError, NonceOrdering}
use igra_foundry_sdk.Store.Db.{Db, exec, transaction, empty_db, no_faults}
use igra_foundry_sdk.Store.Lock.{can_acquire, acquire_sender_lock_and_classify_nonce}
use igra_foundry_sdk.Transport.Route.{
  SerializedRequest, single, batch, WireCrates, string, RawSendRequest, forward, intercept,
  send_raw_transaction, is_unsupported_method, route,
}
use igra_foundry_sdk.Transport.Route.Routing.{
  IsRejected, IsTakenOver, route-unsupported, raw_send_never_forwarded, intercept_lem,
}
use igra_foundry_sdk.Transport.Tracked.{Settings, TrackedSend, SendWorld, tracked_send}
use igra_foundry_sdk.Transport.Send.{persist_transition_safe, request_of, raw_send}
use igra_foundry_sdk.Transport.Send.Unlock.{Unlocked, raw_send_unlocks}
use igra_foundry_sdk.Transport.Send.Trace.{
  entered, kinds, lifecycle, is_ok, received, raw_send_trace,
}
use igra_foundry_sdk.Tests.Rows.{galleon}

abbrev pub crates : WireCrates
crates = record {
  parse_params = λ raw. ok (string (codes "0x02") ∷ []);
  decode_hex = λ s. ok (2 ∷ 9 ∷ []);
  keccak_hex = λ bytes. codes "beef";
  decode_2718 = λ bytes. ok (ok (codes "0xa1"), 7);
  serialize = λ method id. ok (record { id = id; method = method; params = none });
}

abbrev pub raw_request : SerializedRequest
raw_request = record { id = 1; method = send_raw_transaction; params = some (codes "[\"0x02\"]") }

abbrev pub send : RawSendRequest
send = record {
  id = 1;
  raw_tx = 2 ∷ 9 ∷ [];
  metadata = record { l2_tx_hash = codes "0xbeef"; sender = some (codes "0xa1"); nonce = some 7 };
}

intercepts : route crates true (single raw_request) ≡ intercept send
unfolding route text_eq one_of
intercepts = refl

intercept_lem_example : (true ≡ true) × IsTakenOver crates (single raw_request) send
intercept_lem_example = intercept_lem crates true (single raw_request) send intercepts

is_raw : text_eq raw_request.method send_raw_transaction ≡ true
unfolding text_eq
is_raw = refl

raw_send_never_forwarded_example :
    route crates true (single raw_request) ≢ forward (single raw_request)
raw_send_never_forwarded_example =
    raw_send_never_forwarded crates raw_request (single raw_request) is_raw

abbrev unsigned_request : SerializedRequest
unsigned_request = record { id = 2; method = codes "eth_sendTransaction"; params = none }

route-unsupported_example :
    IsRejected (route crates true (batch (raw_request ∷ unsigned_request ∷ [])))
unfolding is_unsupported_method one_of text_eq
route-unsupported_example = route-unsupported crates (raw_request ∷ unsigned_request ∷ []) refl

abbrev pub settings : Settings
settings = record {
  store = some galleon;
  tx_id_prefix = some (codes "97b1");
  mining_timeout_secs = 120;
  kaspa_rpc_url = none;
  kaspa_network = none;
  payload_compression = none;
  kaspa_wallet = default_wallet;
}

-- No other task interferes, no statement fails, and the submission succeeds.
abbrev world : SendWorld
world = record {
  calls = λ k. record { interference = λ db. db; now_ms = 100; faults = no_faults };
  lock_opening = no_faults;
  lock_start_ms = 100;
  lock_rounds = record { interference = λ db. db; now = 100; faults = no_faults } ∷ [];
  lock_join_error = none;
  respond = λ hash. ok hash;
  submit = λ request. ok (record { kaspa_tx_id = codes "ab"; payload_nonce = 3 });
}

abbrev pub tracked : TrackedSend
tracked = record {
  store = galleon;
  l2_tx_hash = codes "0xbeef";
  sender = codes "0xa1";
  l2_nonce = 7;
  correlation_id = codes "c";
  lock_owner_id = codes "0xa1:7:c";
}

abbrev acquired : Option (Result IgraStoreError NonceOrdering × Db)
acquired =
    acquire_sender_lock_and_classify_nonce 1 no_faults 100 world.lock_rounds
      (received world tracked empty_db).db (codes "0xa1") (codes "0xa1:7:c") 7 (codes "0xbeef")

acquires : (db : Db) × (acquired ≡ some (ok (in_order 7), db))
unfolding acquire_sender_lock_and_classify_nonce exec saturating_add saturating_mul transaction
    can_acquire find persist_transition_safe persist_transition classify_nonce_in_tx
acquires = (_, refl)

pub is_tracked : tracked_send settings send.metadata (codes "c") ≡ some tracked
unfolding tracked_send decimal
is_tracked = refl

raw_send_trace_example :
    kinds (raw_send settings world (codes "c") send empty_db)
    ≡ some (
        entered received_raw_l2
        ∷ lifecycle
            (ok (in_order 7))
            (is_ok (world.submit (request_of settings (codes "97b1") send)))
            (is_ok (world.respond send.metadata.l2_tx_hash)))
raw_send_trace_example =
    raw_send_trace settings world (codes "c") send empty_db acquires.0 tracked (codes "97b1")
      (ok (in_order 7)) refl is_tracked refl acquires.1

acquires-Unique : Unique acquires.0.sender_locks
unfolding acquires acquire_sender_lock_and_classify_nonce exec saturating_add saturating_mul
    transaction can_acquire find persist_transition_safe persist_transition classify_nonce_in_tx
    upsert
acquires-Unique = (refl, tt)

raw_send_unlocks_example : Unlocked tracked (raw_send settings world (codes "c") send empty_db)
raw_send_unlocks_example =
    raw_send_unlocks settings world (codes "c") send empty_db acquires.0 tracked (codes "97b1")
      (in_order 7) refl is_tracked refl acquires.1 refl (λ k d u. u) acquires-Unique

flow_passes : ensure_supported_igra_signer_flow true (ok tt) (codes "cast send") false false ≡ ok tt
unfolding ensure_supported_igra_signer_flow
flow_passes = refl

abbrev valid : Result IgraConfigError (Unit {0})
valid = ok tt

signer_flow_ok_example : (valid ≡ ok tt) × ((not true || not (false || false)) ≡ true)
signer_flow_ok_example = signer_flow_ok true valid (codes "cast send") false false flow_passes

abbrev lock_entry : IgraErrorCatalogEntry
lock_entry = record {
  code = codes "IGRA_NONCE_002";
  message = codes "Sender lock acquisition timed out.";
  remediation =
      codes
        "Retry after in-flight transactions finish; investigate long-running sender operations.";
}

lock_entry_found : error_catalog_entry (codes "IGRA_NONCE_002") ≡ some lock_entry
unfolding error_catalog_entry text_eq
lock_entry_found = refl
