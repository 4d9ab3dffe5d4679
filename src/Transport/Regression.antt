-- ===== src/Transport/Regression.antt =====
-- crates/igra/src/transport.rs: the tests of the file on whole sends, run on the model. Decoding
-- and hashing are simple functions here; what a submitter was asked stands in the events.
mod Routes
use igra_foundry_sdk.Prelude.{
  ℕ, ◌+◌, ◌-◌, ◌*◌, ◌≡◌, refl, Bool, true, false, ◌&&◌, Option, none, some, List, [], ◌∷◌, ◌++◌,
  Result, ok, err, leb, ◌==◌, if◌then◌else◌,
}
use igra_foundry_sdk.Prelude.Text.{Text, codes, text_eq, contains, option_text_eq, is_hexdigit}
use igra_foundry_sdk.Config.{default_wallet}
use igra_foundry_sdk.Store.Types.{
  TxLifecycleUpdate, TxMapRecord, as_str, kaspa_broadcasted, failed_recoverable,
  igra_nonce_replacement_candidate_error_code,
}
use igra_foundry_sdk.Store.Db.{Db, empty_db, no_faults}
use igra_foundry_sdk.Store.Nonce.{mark_submitted_in_order_nonce}
use igra_foundry_sdk.Store.Lifecycle.{IgraStore, persist_transition, load_tx}
use igra_foundry_sdk.Transport.Route.{
  Bytes, Json, string, RequestPacket, single, WireCrates, send_raw_transaction, route,
}
use igra_foundry_sdk.Transport.Tracked.{SendWorld, Progress, Event, submitted}
use igra_foundry_sdk.Transport.Send.{raw_send}
use igra_foundry_sdk.Transport.Send.Calm.{calm}
use igra_foundry_sdk.Transport.Service.{
  IgraTransport, IgraTransportConfig, Response, l2_tx_hash_response, Submitter, new,
  with_transport_config, with_submitter_for_tests, with_store_for_tests, request,
}
use igra_foundry_sdk.Prelude.{find, upsert, delete_where}
use igra_foundry_sdk.Prelude.Text.{one_of, strip_0x, decimal}
use igra_foundry_sdk.Prelude.Words.{as_u64, as_i64, saturating_add, saturating_mul}
use igra_foundry_sdk.Store.Types.{parse}
use igra_foundry_sdk.Store.Db.{exec, transaction}
use igra_foundry_sdk.Store.Lock.{
  acquire_sender_lock_and_classify_nonce, can_acquire, release_sender_lock,
}
use igra_foundry_sdk.Store.Nonce.{classify_nonce_in_tx, has_other_hash}
use igra_foundry_sdk.Transport.Send.{replacement_message}

-- Parameters in JSON: `[]`, or one string `["..."]`.
abbrev until_quote : Text → Text
until_quote [] = []
until_quote (c ∷ s) = if c == b'"' then [] else c ∷ until_quote s

abbrev params_of : Text → Result Text (List Json)
params_of (a ∷ b ∷ s) = if b == b'"' then ok (string (until_quote s) ∷ []) else ok []
params_of _ = ok []

abbrev digit_value : ℕ → ℕ
digit_value c = if leb c 57 then c - 48 else c - 87

abbrev bytes_of : Text → Result Text Bytes
bytes_of [] = ok []
bytes_of (a ∷ []) = err (codes "Odd number of digits")
bytes_of (a ∷ b ∷ s) =
    let rest = bytes_of s in
    if is_hexdigit a && is_hexdigit b
    then elim rest [ ok bytes ↦ ok ((16 * digit_value a + digit_value b) ∷ bytes) | err e ↦ err e ]
    else err (codes "Invalid character")

abbrev sender : Text
sender = codes "0x9d8a62f656a8d1615c1294fd71e9cfb3e4855a4f"

-- Every raw transaction is signed by `sender` with the nonce 2, and is its own digest.
abbrev pub crates : WireCrates
crates = record {
  parse_params = params_of;
  decode_hex = bytes_of;
  keccak_hex = λ bytes. bytes;
  decode_2718 = λ bytes. ok (ok sender, 2);
  serialize = λ method id. ok (record { id = id; method = method; params = none });
}

abbrev test_transport_config : IgraTransportConfig
test_transport_config = record {
  tx_id_prefix = some (codes "00");
  mining_timeout_secs = some 2;
  kaspa_rpc_url = some (codes "grpc://127.0.0.1:16110");
  kaspa_network = some (codes "testnet-10");
  payload_compression = none;
  kaspa_wallet = default_wallet;
}

abbrev test_store : IgraStore
test_store = record {
  db_path = codes "/tmp/test.sqlite";
  kaspa_network = codes "testnet-10";
  expected_el_chain_id = 1337;
  sender_lock_timeout_secs = 60;
  el_rpc_fingerprint = none;
  kaspa_rpc_fingerprint = none;
  completed_retention_hours = 168;
  failed_retention_hours = 720;
  max_db_size_mb = 512;
}

-- `RecordingSubmitter::success()` and `failure(message)`.
abbrev pub success : Submitter
success asked = ok (record { kaspa_tx_id = codes "kaspa-tx-id-1"; payload_nonce = 0 })

abbrev failure : Text → Submitter
failure message asked = err message

-- `RecordingTransport`: its answer says that it was called.
abbrev pub recording : RequestPacket → Result Text (Unit {0})
recording packet = ok tt

abbrev pub world : SendWorld
world = calm (λ k. 1000 + k) 1000 success (λ hash. ok hash)

abbrev raw_hex : Text
raw_hex =
    codes
      "f86b02843b9aca00830186a094d3e8763675e4c425df46cc3b5c0f6cbdac39604687038d7ea4c68000802ba00eb96ca19e8a77102767a41fc85a36afd5c61ccb09911cec5d3e86e193d9c5aea03a456401896b1b6055311536bf00a718568c744d8c1f9df59879e8350220ca18"

abbrev pub send_raw_packet : Text → RequestPacket
send_raw_packet hex = single (record {
  id = 1;
  method = send_raw_transaction;
  params = some (codes "[\"0x" ++ hex ++ codes "\"]");
})

abbrev pub Outcome : Type 0
Outcome = Option (Result Text (Response (Unit {0})) × Progress)

abbrev sends : IgraTransport (Unit {0}) → Text → Db → Outcome
sends transport hex db = request transport crates world (codes "c") (send_raw_packet hex) db

abbrev submissions : List Event → ℕ
submissions [] = 0
submissions (submitted r ∷ es) = 1 + submissions es
submissions (_ ∷ es) = submissions es

-- The hash comes back, the wrapped transport was not called, and the submitter was called once.
abbrev answers_hash : Outcome → Bool
answers_hash (some (ok (l2_tx_hash_response id hash), p)) = submissions p.events == 1
answers_hash _ = false

abbrev untracked : IgraTransport (Unit {0})
untracked =
    with_submitter_for_tests success
      (with_transport_config test_transport_config (new recording true success))

abbrev igra_transport_allows_raw_signed_send : Bool
igra_transport_allows_raw_signed_send = answers_hash (sends untracked raw_hex empty_db)

-- The tests sign a transaction of the type; the bytes after the first play no part here.
abbrev igra_transport_allows_eip2930_raw_txs : Bool
igra_transport_allows_eip2930_raw_txs = answers_hash (sends untracked (codes "01f8") empty_db)

abbrev igra_transport_allows_eip1559_raw_txs : Bool
igra_transport_allows_eip1559_raw_txs = answers_hash (sends untracked (codes "02f8") empty_db)

abbrev tracked_by : Submitter → IgraTransport (Unit {0})
tracked_by submitter = with_submitter_for_tests submitter (
    with_transport_config test_transport_config
      (with_store_for_tests test_store (new recording true success)))

abbrev digest : Text
digest = elim (bytes_of raw_hex) [ ok bytes ↦ codes "0x" ++ bytes | err e ↦ [] ]

abbrev record_is : (TxMapRecord → Bool) → Text → Outcome → Bool
record_is test hash none = false
record_is test hash (some (r, p)) = elim (load_tx true no_faults p.db hash) [
  | ok o ↦ elim o [ some row ↦ test row | none ↦ false ]
  | err e ↦ false
]

abbrev igra_transport_persists_happy_path_lifecycle_sequence : Bool
igra_transport_persists_happy_path_lifecycle_sequence =
    let sent = sends (tracked_by success) raw_hex empty_db in
    answers_hash sent
    && record_is
        (λ row.
          text_eq (as_str row.state) (as_str kaspa_broadcasted)
          && option_text_eq row.kaspa_tx_id (some (codes "kaspa-tx-id-1"))
          && (row.attempts == 0)
          && leb row.created_at_ms row.updated_at_ms)
        digest sent

-- Another transaction with the sender and the nonce is known, and the next nonce is expected.
abbrev existing : TxLifecycleUpdate
existing = record {
  l2_tx_hash = codes "0xfeedface";
  sender = sender;
  l2_nonce = 2;
  payload_nonce = some 2;
  kaspa_tx_id = none;
  state = kaspa_broadcasted;
  correlation_id = codes "existing-correlation";
  last_error_code = none;
  last_error_message = none;
  increment_attempts = false;
}

abbrev advanced_db : Db
advanced_db =
    (mark_submitted_in_order_nonce no_faults
      (persist_transition test_store no_faults empty_db existing 900).1 sender 2 901).1

abbrev mentions : Text → Option Text → Bool
mentions part none = false
mentions part (some message) = contains message part

abbrev igra_transport_persists_stale_replacement_candidate_observability : Bool
igra_transport_persists_stale_replacement_candidate_observability =
    let sent = sends (tracked_by success) raw_hex advanced_db in
    answers_hash sent
    && record_is
        (λ row.
          text_eq (as_str row.state) (as_str kaspa_broadcasted)
          && option_text_eq row.last_error_code (some igra_nonce_replacement_candidate_error_code)
          && mentions (codes "stale nonce replacement candidate") row.last_error_message)
        digest sent

abbrev fails_after_submission : Text → Outcome → Bool
fails_after_submission part (some (err e, p)) = contains e part && submissions p.events == 1
fails_after_submission part _ = false

abbrev igra_transport_submitter_error_marks_failed_without_inner_call : Bool
igra_transport_submitter_error_marks_failed_without_inner_call =
    let sent = sends (tracked_by (failure (codes "kaspa submit failed"))) raw_hex empty_db in
    fails_after_submission (codes "kaspa submit failed") sent
    && record_is
        (λ row.
          text_eq (as_str row.state) (as_str failed_recoverable)
          && mentions (codes "kaspa submit failed") row.last_error_message)
        digest sent

-- The tests of transport.rs on sends without a store pass on the model.
untracked_tests_pass :
    (igra_transport_allows_raw_signed_send && igra_transport_allows_eip2930_raw_txs
      && igra_transport_allows_eip1559_raw_txs)
    ≡ true
unfolding request route raw_send with_submitter_for_tests with_store_for_tests with_transport_config
    new text_eq contains option_text_eq is_hexdigit load_tx persist_transition
    mark_submitted_in_order_nonce as_str one_of strip_0x acquire_sender_lock_and_classify_nonce exec
    saturating_add saturating_mul transaction can_acquire find classify_nonce_in_tx
    release_sender_lock upsert as_u64 as_i64 parse has_other_hash replacement_message delete_where
    decimal
untracked_tests_pass = refl

-- The test of a send that succeeds passes.
happy_path_test_passes : igra_transport_persists_happy_path_lifecycle_sequence ≡ true
unfolding request route raw_send with_submitter_for_tests with_store_for_tests with_transport_config
    new text_eq contains option_text_eq is_hexdigit load_tx persist_transition
    mark_submitted_in_order_nonce as_str one_of strip_0x acquire_sender_lock_and_classify_nonce exec
    saturating_add saturating_mul transaction can_acquire find classify_nonce_in_tx
    release_sender_lock upsert as_u64 as_i64 parse has_other_hash replacement_message delete_where
    decimal
happy_path_test_passes = refl

-- The test of a replacement candidate passes.
replacement_test_passes : igra_transport_persists_stale_replacement_candidate_observability ≡ true
unfolding request route raw_send with_submitter_for_tests with_store_for_tests with_transport_config
    new text_eq contains option_text_eq is_hexdigit load_tx persist_transition
    mark_submitted_in_order_nonce as_str one_of strip_0x acquire_sender_lock_and_classify_nonce exec
    saturating_add saturating_mul transaction can_acquire find classify_nonce_in_tx
    release_sender_lock upsert as_u64 as_i64 parse has_other_hash replacement_message delete_where
    decimal
replacement_test_passes = refl

-- The test of a failed submission passes.
failure_test_passes : igra_transport_submitter_error_marks_failed_without_inner_call ≡ true
unfolding request route raw_send with_submitter_for_tests with_store_for_tests with_transport_config
    new text_eq contains option_text_eq is_hexdigit load_tx persist_transition
    mark_submitted_in_order_nonce as_str one_of strip_0x acquire_sender_lock_and_classify_nonce exec
    saturating_add saturating_mul transaction can_acquire find classify_nonce_in_tx
    release_sender_lock upsert as_u64 as_i64 parse has_other_hash replacement_message delete_where
    decimal
failure_test_passes = refl
