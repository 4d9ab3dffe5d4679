-- ===== src/Transport/Route.antt =====
-- crates/igra/src/transport.rs: what `request` does with a packet before anything is sent.
pub mod Routing
use igra_foundry_sdk.Prelude.{
  ℕ, ◌+◌, ◌/◌, ◌%◌, Bool, true, false, Option, none, some, List, [], ◌∷◌, ◌++◌, Result, ok, err,
  ◌>>=◌, ◌>>◌, ok_or, leb, ltb, ◌==◌, if◌then◌else◌,
}
use igra_foundry_sdk.Prelude.Text.{Text, codes, text_eq, one_of, strip_0x}

abbrev pub Bytes : Type 0
Bytes = List ℕ

pub record SerializedRequest : Type 0 where
  pub id : ℕ
  pub method : Text
  pub params : Option Text

pub data RequestPacket : Type 0 where
  single : SerializedRequest → RequestPacket
  batch : List SerializedRequest → RequestPacket

abbrev requests : RequestPacket → List SerializedRequest
requests (single r) = r ∷ []
requests (batch rs) = rs

-- A JSON value, as far as the program asks: is it a string?
pub data Json : Type 0 where
  string : Text → Json
  other_json : Json

pub record RawTxMetadata : Type 0 where
  pub l2_tx_hash : Text
  pub sender : Option Text
  pub nonce : Option ℕ

-- The other crates: JSON, hex, Keccak in hex, the EIP-2718 envelope (the recovered signer in hex, or why
-- there is none, and the nonce), and the serialisation of a request without parameters.
pub record WireCrates : Type 0 where
  pub parse_params : Text → Result Text (List Json)
  pub decode_hex : Text → Result Text Bytes
  pub keccak_hex : Bytes → Text
  pub decode_2718 : Bytes → Result Text (Result Text Text × ℕ)
  pub serialize : Text → ℕ → Result Text SerializedRequest

pub data RawIgraTxType : Type 0 where
  legacy eip2930 eip1559 eip4844 eip7702 : RawIgraTxType
  unknown : ℕ → RawIgraTxType

pub tx_type_nibble : RawIgraTxType → Option ℕ
tx_type_nibble legacy = some 0
tx_type_nibble eip2930 = some 1
tx_type_nibble eip1559 = some 2
tx_type_nibble eip4844 = none
tx_type_nibble eip7702 = none
tx_type_nibble (unknown ty) = none

abbrev unsupported_methods : List Text
unsupported_methods =
    codes "eth_sendTransaction"
    ∷ codes "eth_sendTransactionSync"
    ∷ codes "eth_sendRawTransactionSync"
    ∷ []

unfoldable pub is_unsupported_method : Text → Bool
is_unsupported_method method = one_of method unsupported_methods

abbrev pub send_raw_transaction : Text
send_raw_transaction = codes "eth_sendRawTransaction"

type_of_first : ℕ → RawIgraTxType
type_of_first first =
    if leb 0xc0 first
    then legacy
    else if first == 1
    then eip2930
    else if first == 2
    then eip1559
    else if first == 3
    then eip4844
    else if first == 4
    then eip7702
    else unknown first

type_of_bytes : Bytes → Result Text RawIgraTxType
unfolding type_of_first
type_of_bytes [] = err (codes "empty raw transaction bytes")
type_of_bytes (first ∷ raw) = ok (type_of_first first)

-- `format!("{ty:02x}")` of a byte.
hex_digit : ℕ → ℕ
hex_digit d = if ltb d 10 then d + 48 else d + 87

hex_byte : ℕ → Text
unfolding hex_digit
hex_byte b = hex_digit (b / 16) ∷ hex_digit (b % 16) ∷ []

pub send_transaction_unsupported : Text
send_transaction_unsupported =
    codes "IGRA mode requires raw signed transactions; eth_sendTransaction* is not supported"

type_rejection : Result Text RawIgraTxType → Option Text
unfolding hex_byte
type_rejection (ok legacy) = none
type_rejection (ok eip2930) = none
type_rejection (ok eip1559) = none
type_rejection (ok eip4844) =
    some (codes "IGRA unsupported transaction type: EIP-4844 (blob transactions)")
type_rejection (ok eip7702) = some (codes "IGRA unsupported transaction type: EIP-7702")
type_rejection (ok (unknown ty)) =
    some (codes "IGRA unsupported transaction type: 0x" ++ hex_byte ty)
type_rejection (err e) = some (codes "IGRA raw transaction decode error: " ++ e)

-- `params.first().and_then(Value::as_str)`
abbrev first_string : List Json → Option Text
first_string (string s ∷ values) = some s
first_string (other_json ∷ values) = none
first_string [] = none

abbrev with_prefix : {A : Type 0} → Text → Result Text A → Result Text A
with_prefix message (ok a) = ok a
with_prefix message (err e) = err (message ++ e)

pub record RawSendRequest : Type 0 where
  pub id : ℕ
  pub raw_tx : Bytes
  pub metadata : RawTxMetadata

-- The first reason that some request of the packet gives.
abbrev pub find_map : {A : Type 0} → (A → Option Text) → List A → Option Text
find_map f [] = none
find_map f (x ∷ xs) = elim (f x) [ none ↦ find_map f xs | some reason ↦ some reason ]

-- What `request` does: it sends a packet on to the wrapped transport, refuses, or intercepts.
pub data Route : Type 0 where
  forward : RequestPacket → Route
  reject : Text → Route
  intercept : RawSendRequest → Route

module _ (crates : WireCrates) where
  pub raw_tx_bytes : SerializedRequest → Result Text Bytes
  raw_tx_bytes request = do
    raw ← ok_or request.params (codes "missing params")
    params ← with_prefix (codes "invalid params JSON: ") (crates.parse_params raw)
    encoded ← ok_or (first_string params) (codes "expected params[0] hex string")
    with_prefix (codes "invalid raw tx hex: ") (crates.decode_hex (strip_0x encoded))

  pub raw_tx_type : SerializedRequest → Result Text RawIgraTxType
  unfolding raw_tx_bytes type_of_bytes
  raw_tx_type request = do raw_tx ← raw_tx_bytes request; type_of_bytes raw_tx

  pub request_rejection_reason : SerializedRequest → Option Text
  unfolding is_unsupported_method type_rejection raw_tx_type send_transaction_unsupported
  request_rejection_reason request =
      if is_unsupported_method request.method
      then some send_transaction_unsupported
      else if text_eq request.method send_raw_transaction
      then type_rejection (raw_tx_type request)
      else none

  pub rejection_reason : Bool → RequestPacket → Option Text
  unfolding request_rejection_reason
  rejection_reason false packet = none
  rejection_reason true packet = find_map request_rejection_reason (requests packet)

  abbrev signer : Result Text Text → Result Text Text
  signer (ok sender) = ok sender
  signer (err e) = err (codes "invalid raw tx signature (failed to recover signer): " ++ e)

  pub raw_tx_metadata_from_raw_tx : Bytes → Result Text RawTxMetadata
  raw_tx_metadata_from_raw_tx raw_tx = do
    (recovered, nonce) ←
        with_prefix (codes "invalid raw tx bytes (EIP-2718 decode failed): ")
          (crates.decode_2718 raw_tx)
    sender ← signer recovered
    ok (record {
      l2_tx_hash = codes "0x" ++ crates.keccak_hex raw_tx;
      sender = some sender;
      nonce = some nonce;
    })

  pub single_send_raw_request : RequestPacket → Option SerializedRequest
  single_send_raw_request (single r) =
      if text_eq r.method send_raw_transaction then some r else none
  single_send_raw_request (batch rs) = none

  pub raw_send_of : SerializedRequest → Result Text RawSendRequest
  unfolding raw_tx_bytes raw_tx_type raw_tx_metadata_from_raw_tx tx_type_nibble
  raw_send_of request = do
    raw_tx ← raw_tx_bytes request
    ty ← raw_tx_type request
    nibble ← ok_or (tx_type_nibble ty) (codes "unsupported tx type for IGRA payload header")
    metadata ← raw_tx_metadata_from_raw_tx raw_tx
    ok (record { id = request.id; raw_tx = raw_tx; metadata = metadata })

  pub raw_send_request : RequestPacket → Result Text (Option RawSendRequest)
  unfolding single_send_raw_request raw_send_of
  raw_send_request packet = elim (single_send_raw_request packet) [
    | none ↦ ok none
    | some request ↦ (raw_send_of request >>= λ send. ok (some send))
  ]

  -- The answer to `eth_maxPriorityFeePerGas` is that of `eth_gasPrice`.
  pub fee_override : SerializedRequest → Route
  fee_override request = elim (crates.serialize (codes "eth_gasPrice") request.id) [
    | ok r ↦ forward (single r)
    | err e ↦ reject (codes "IGRA fee override error: failed to build eth_gasPrice request: " ++ e)
  ]

  pub send_or_forward : RequestPacket → Result Text (Option RawSendRequest) → Route
  send_or_forward packet (err e) = reject e
  send_or_forward packet (ok none) = forward packet
  send_or_forward packet (ok (some send)) = intercept send

  pub route_enabled : RequestPacket → Route
  unfolding rejection_reason send_or_forward raw_send_request
  route_enabled packet = elim (rejection_reason true packet) [
    | some reason ↦ reject reason
    | none ↦ send_or_forward packet (raw_send_request packet)
  ]

  unfoldable pub route : Bool → RequestPacket → Route
  unfolding fee_override route_enabled
  route false packet = forward packet
  route true (single r) =
      if text_eq r.method (codes "eth_maxPriorityFeePerGas")
      then fee_override r
      else route_enabled (single r)
  route true (batch rs) = route_enabled (batch rs)
