-- ===== src/Transport/Regression/Routes.antt =====
-- crates/igra/src/transport.rs: the tests of the file on what is let through, run on the model.
use igra_foundry_sdk.Prelude.{
  ℕ, ◌+◌, ◌≡◌, refl, Bool, true, false, ◌&&◌, some, List, [], ◌∷◌, ok, err, all, take, drop,
  if◌then◌else◌,
}
use igra_foundry_sdk.Prelude.Text.{Text, codes, text_eq, one_of, contains, is_hexdigit, strip_0x}
use igra_foundry_sdk.Store.Db.{empty_db}
use igra_foundry_sdk.Payload.Format.{build_payload_with_nonce}
use igra_foundry_sdk.Transport.Route.{
  SerializedRequest, RequestPacket, single, batch, send_raw_transaction, route,
}
use igra_foundry_sdk.Transport.Service.{IgraTransport, passed_on, new, request}
use igra_foundry_sdk.Transport.Regression.{
  crates, success, recording, world, send_raw_packet, Outcome,
}

-- `IgraTransport::new(inner, enabled)`
abbrev transport : Bool → IgraTransport (Unit {0})
transport enabled = new recording enabled success

abbrev outcome : Bool → RequestPacket → Outcome
outcome enabled packet = request (transport enabled) crates world (codes "c") packet empty_db

-- Refused with this text, so that the wrapped transport is not called; or called once.
abbrev is_refused_with : Text → Outcome → Bool
is_refused_with part (some (err e, p)) = contains e part
is_refused_with part _ = false

abbrev is_passed_on : Outcome → Bool
is_passed_on (some (ok (passed_on r), p)) = true
is_passed_on _ = false

abbrev plain_request : ℕ → Text → SerializedRequest
plain_request id method = record { id = id; method = method; params = some (codes "[]") }

abbrev request_packet : Text → RequestPacket
request_packet method = single (plain_request 1 method)

abbrev batch_request : ℕ → Text → SerializedRequest
batch_request id method =
    if text_eq method send_raw_transaction
    then record { id = id; method = method; params = some (codes "[\"0xc0\"]") }
    else plain_request id method

abbrev numbered : ℕ → List Text → List SerializedRequest
numbered id [] = []
numbered id (m ∷ ms) = batch_request id m ∷ numbered (id + 1) ms

abbrev batch_request_packet : List Text → RequestPacket
batch_request_packet methods = batch (numbered 1 methods)

abbrev unsupported_text : Text
unsupported_text =
    codes "IGRA mode requires raw signed transactions; eth_sendTransaction* is not supported"

abbrev igra_transport_rejects_unsupported_send_methods : Bool
igra_transport_rejects_unsupported_send_methods =
    all (λ method. is_refused_with unsupported_text (outcome true (request_packet method)))
      (codes "eth_sendTransaction"
        ∷ codes "eth_sendTransactionSync"
        ∷ codes "eth_sendRawTransactionSync"
        ∷ [])

abbrev igra_transport_rejects_eip4844_raw_txs : Bool
igra_transport_rejects_eip4844_raw_txs =
    is_refused_with (codes "IGRA unsupported transaction type: EIP-4844 (blob transactions)")
      (outcome true (send_raw_packet (codes "0300")))

abbrev igra_transport_rejects_eip7702_raw_txs : Bool
igra_transport_rejects_eip7702_raw_txs =
    is_refused_with (codes "IGRA unsupported transaction type: EIP-7702")
      (outcome true (send_raw_packet (codes "0400")))

abbrev igra_transport_rejects_unknown_typed_raw_txs : Bool
igra_transport_rejects_unknown_typed_raw_txs =
    is_refused_with (codes "IGRA unsupported transaction type: 0x7f")
      (outcome true (send_raw_packet (codes "7f00")))

abbrev raw_request_with : Text → RequestPacket
raw_request_with params =
    single (record { id = 1; method = send_raw_transaction; params = some params })

abbrev igra_transport_rejects_malformed_send_raw_transaction_params : Bool
igra_transport_rejects_malformed_send_raw_transaction_params =
    all
      (λ params.
        is_refused_with (codes "IGRA raw transaction decode error")
          (outcome true (raw_request_with params)))
      (codes "[\"not-hex\"]" ∷ codes "[]" ∷ [])

abbrev igra_transport_rejects_batch_with_unsupported_send_method : Bool
igra_transport_rejects_batch_with_unsupported_send_method = is_refused_with unsupported_text (
    outcome true (
      batch_request_packet
        (codes "eth_blockNumber" ∷ codes "eth_sendTransaction" ∷ codes "eth_chainId" ∷ [])))

abbrev igra_transport_allows_batch_with_only_allowed_methods : Bool
igra_transport_allows_batch_with_only_allowed_methods = is_passed_on (
    outcome true (
      batch_request_packet
        (codes "eth_sendRawTransaction" ∷ codes "eth_blockNumber" ∷ codes "eth_chainId" ∷ [])))

abbrev igra_transport_allows_non_send_method_in_igra_mode : Bool
igra_transport_allows_non_send_method_in_igra_mode =
    is_passed_on (outcome true (request_packet (codes "eth_blockNumber")))

abbrev igra_transport_disabled_mode_passes_through : Bool
igra_transport_disabled_mode_passes_through =
    is_passed_on (outcome false (request_packet (codes "eth_sendTransaction")))

abbrev igra_payload_format_prefixes_header_and_appends_be_u32_nonce : Bool
igra_payload_format_prefixes_header_and_appends_be_u32_nonce =
    let payload = build_payload_with_nonce 0x94 (1 ∷ 2 ∷ 3 ∷ []) 0x0102_0304 in
    text_eq (take 1 payload) (0x94 ∷ [])
    && text_eq (take 3 (drop 1 payload)) (1 ∷ 2 ∷ 3 ∷ [])
    && text_eq (take 4 (drop 4 payload)) (1 ∷ 2 ∷ 3 ∷ 4 ∷ [])

-- The tests of transport.rs on what is let through pass on the model.
route_tests_pass :
    (igra_transport_rejects_unsupported_send_methods && igra_transport_rejects_eip4844_raw_txs
      && igra_transport_rejects_eip7702_raw_txs && igra_transport_rejects_unknown_typed_raw_txs
      && igra_transport_rejects_malformed_send_raw_transaction_params
      && igra_transport_rejects_batch_with_unsupported_send_method
      && igra_transport_allows_batch_with_only_allowed_methods
      && igra_transport_allows_non_send_method_in_igra_mode
      && igra_transport_disabled_mode_passes_through
      && igra_payload_format_prefixes_header_and_appends_be_u32_nonce)
    ≡ true
unfolding request route new text_eq contains is_hexdigit one_of strip_0x build_payload_with_nonce
route_tests_pass = refl
