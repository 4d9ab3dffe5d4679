-- ===== src/Transport/Route/Routing.antt =====
-- crates/igra/src/transport.rs: which packets `request` refuses, takes over and sends on.
use igra_foundry_sdk.Prelude.{
  ℕ, ◌≡◌, ◌≢◌, refl, ap, sym, ◌∙◌, Bool, true, false, Option, none, some, List, [], ◌∷◌, ◌++◌,
  Result, ok, err, ◌>>=◌, ok_or, arith, inl, inr, Bool-cases, Option-cases, any, if◌then◌else◌,
}
use igra_foundry_sdk.Prelude.Text.{Text, codes, text_eq, text_eq_iff}
use igra_foundry_sdk.Transport.Route.{
  Bytes, SerializedRequest, RequestPacket, single, batch, WireCrates, RawIgraTxType, tx_type_nibble,
  is_unsupported_method, send_raw_transaction, send_transaction_unsupported, RawTxMetadata,
  RawSendRequest, find_map, Route, forward, reject, intercept, raw_tx_bytes, raw_tx_type,
  request_rejection_reason, rejection_reason, raw_tx_metadata_from_raw_tx, single_send_raw_request,
  raw_send_of, raw_send_request, send_or_forward, route_enabled, fee_override, route,
}

-- A packet is refused.
abbrev pub IsRejected : Route → Type 0
IsRejected r = (reason : Text) × (r ≡ reject reason)

find_map-any :
    {A : Type 0} (f : A → Option Text) (test : A → Bool) (xs : List A)
    → ((x : A) → test x ≡ true → (reason : Text) × (f x ≡ some reason))
    → any test xs ≡ true
    → (reason : Text) × (find_map f xs ≡ some reason)
find_map-any f test [] finds h = absurd (cc)
find_map-any f test (x ∷ xs) finds h = elim (Bool-cases (test x)) [
  | inl hit ↦ let (reason, e) = finds x hit in (reason, rw (e, find_map))
  | inr miss ↦ elim (Option-cases (f x)) [
    | inr (reason, e) ↦ (reason, rw (e, find_map))
    | inl e ↦
        let (reason, found) = find_map-any f test xs finds (ground (arith, miss, h)) in
        (reason, rw (e, find_map) found)
  ]
]

unsupported-reason :
    (crates : WireCrates) (r : SerializedRequest)
    → is_unsupported_method r.method ≡ true
    → request_rejection_reason crates r ≡ some send_transaction_unsupported
unfolding request_rejection_reason
unsupported-reason crates r h = ground (arith, h)

rejection-route :
    (crates : WireCrates) (packet : RequestPacket) (reason : Text)
    → rejection_reason crates true packet ≡ some reason
    → route_enabled crates packet ≡ reject reason
unfolding route_enabled
rejection-route crates packet reason e = rw (e, route_enabled)

-- In IGRA mode a batch is refused whole as soon as one of its requests has an unsupported method,
-- wherever it stands and whatever the others are.
pub route-unsupported :
    (crates : WireCrates) (rs : List SerializedRequest)
    → any (λ (r : SerializedRequest). is_unsupported_method r.method) rs ≡ true
    → IsRejected (route crates true (batch rs))
unfolding route rejection_reason
route-unsupported crates rs h =
    let (reason, e) =
      find_map-any (request_rejection_reason crates)
        (λ (r : SerializedRequest). is_unsupported_method r.method) rs
        (λ r u. (send_transaction_unsupported, unsupported-reason crates r u)) h in
    (reason, rejection-route crates (batch rs) reason e)

send_of-forward :
    (crates : WireCrates) (packet p : RequestPacket) (r : Result Text RawSendRequest)
    → send_or_forward crates packet (r >>= λ send. ok (some send)) ≢ forward p
unfolding send_or_forward
send_of-forward crates packet p (ok send) = λ e. cc
send_of-forward crates packet p (err m) = λ e. cc

send-forward :
    (crates : WireCrates) (r : SerializedRequest) (packet p : RequestPacket)
    → single_send_raw_request crates packet ≡ some r
    → route_enabled crates packet ≢ forward p
unfolding route_enabled raw_send_request
send-forward crates r packet p one = elim (Option-cases (rejection_reason crates true packet)) [
  | inr (reason, e) ↦ rw (e, route_enabled) (λ e'. cc)
  | inl e ↦
      rw (e, route_enabled)
        (rw (one, raw_send_request) (send_of-forward crates packet p (raw_send_of crates r)))
]

-- In IGRA mode a single `eth_sendRawTransaction` never reaches the wrapped transport.
pub raw_send_never_forwarded :
    (crates : WireCrates) (r : SerializedRequest) (p : RequestPacket)
    → text_eq r.method send_raw_transaction ≡ true
    → route crates true (single r) ≢ forward p
unfolding route single_send_raw_request
raw_send_never_forwarded crates r p h =
    let e : r.method ≡ send_raw_transaction = (text_eq_iff r.method send_raw_transaction).0 h in
    let other : text_eq r.method (codes "eth_maxPriorityFeePerGas") ≡ false =
      ap (λ m. text_eq m (codes "eth_maxPriorityFeePerGas")) e ∙ (unfold text_eq in refl) in
    rw other (send-forward crates r (single r) p (rw h))

-- What is taken over: the decoded bytes of the request's first parameter, of a type that is not refused,
-- with the hash of these bytes.
pub record IsTakenOver (crates : WireCrates) (packet : RequestPacket) (send : RawSendRequest)
    : Type 0 where
  pub request : SerializedRequest
  pub alone : packet ≡ single request
  pub method : text_eq request.method send_raw_transaction ≡ true
  pub bytes : raw_tx_bytes crates request ≡ ok send.raw_tx
  pub type : RawIgraTxType
  pub typed : raw_tx_type crates request ≡ ok type
  pub supported : (nibble : ℕ) × (tx_type_nibble type ≡ some nibble)
  pub hash : send.metadata.l2_tx_hash ≡ codes "0x" ++ crates.keccak_hex send.raw_tx

metadata-hash :
    (crates : WireCrates) (raw : Bytes) (metadata : RawTxMetadata)
    → raw_tx_metadata_from_raw_tx crates raw ≡ ok metadata
    → metadata.l2_tx_hash ≡ codes "0x" ++ crates.keccak_hex raw
unfolding raw_tx_metadata_from_raw_tx
metadata-hash crates raw metadata e = ground arith

-- The rest of a send whose bytes are `raw` and whose type is `type`.
send_with :
    (crates : WireCrates) (request : SerializedRequest) (raw : Bytes) (send : RawSendRequest)
    (nibble : Option ℕ) (m : Result Text RawTxMetadata)
    → raw_tx_metadata_from_raw_tx crates raw ≡ m
    → (ok_or nibble (codes "unsupported tx type for IGRA payload header") >>= λ n.
        m >>= λ metadata. ok (record { id = request.id; raw_tx = raw; metadata = metadata }))
      ≡ ok send
    → (send.raw_tx ≡ raw)
      × ((n : ℕ) × (nibble ≡ some n))
      × (send.metadata.l2_tx_hash ≡ codes "0x" ++ crates.keccak_hex raw)
send_with crates request raw send none m md e = absurd (cc)
send_with crates request raw send (some n) (err x) md e = absurd (cc)
send_with crates request raw send (some n) (ok metadata) md e =
    (cc, (n, refl), cc (metadata-hash crates raw metadata md))

send_from :
    (crates : WireCrates) (request : SerializedRequest) (send : RawSendRequest)
    (b : Result Text Bytes) (t : Result Text RawIgraTxType)
    → raw_tx_bytes crates request ≡ b
    → raw_tx_type crates request ≡ t
    → text_eq request.method send_raw_transaction ≡ true
    → (b >>= λ raw. t >>= λ type.
        ok_or (tx_type_nibble type) (codes "unsupported tx type for IGRA payload header") >>= λ n.
        raw_tx_metadata_from_raw_tx crates raw >>= λ metadata.
        ok (record { id = request.id; raw_tx = raw; metadata = metadata }))
      ≡ ok send
    → IsTakenOver crates (single request) send
send_from crates request send (err x) t is_b is_t m e = absurd (cc)
send_from crates request send (ok raw) (err x) is_b is_t m e = absurd (cc)
send_from crates request send (ok raw) (ok type) is_b is_t m e =
    let (same, supported, hash) =
      send_with crates request raw send (tx_type_nibble type) _ refl e in
    record {
      request = request;
      alone = refl;
      method = m;
      bytes = is_b ∙ ap ok (sym same);
      type = type;
      typed = is_t;
      supported = supported;
      hash = hash ∙ ap (λ r. codes "0x" ++ crates.keccak_hex r) (sym same);
    }

taken_over :
    (crates : WireCrates) (packet : RequestPacket) (request : SerializedRequest)
    (send : RawSendRequest) (r : Result Text RawSendRequest)
    → raw_send_of crates request ≡ r
    → text_eq request.method send_raw_transaction ≡ true
    → send_or_forward crates packet (r >>= λ s. ok (some s)) ≡ intercept send
    → IsTakenOver crates (single request) send
unfolding raw_send_of send_or_forward
taken_over crates packet request send (err x) is_r m e = absurd (cc)
taken_over crates packet request send (ok s) is_r m e =
    send_from crates request send _ _ refl refl m (cc is_r)

not_taken_over :
    (crates : WireCrates) (packet : RequestPacket) (send : RawSendRequest)
    → single_send_raw_request crates packet ≡ none
    → route_enabled crates packet ≢ intercept send
unfolding route_enabled raw_send_request send_or_forward
not_taken_over crates packet send h = elim (Option-cases (rejection_reason crates true packet)) [
  | inr (reason, e) ↦ rw (e, route_enabled) (λ e'. cc)
  | inl e ↦ rw (e, route_enabled) (rw (h, raw_send_request) (λ e'. cc))
]

accepted :
    (crates : WireCrates) (r : SerializedRequest)
    → rejection_reason crates true (single r) ≡ none
    → text_eq r.method send_raw_transaction ≡ true
    → route_enabled crates (single r)
      ≡ send_or_forward crates (single r) (raw_send_of crates r >>= λ s. ok (some s))
unfolding route_enabled raw_send_request single_send_raw_request
accepted crates r f m = rw (f, route_enabled) (rw (m, raw_send_request))

fee_override-intercept :
    (crates : WireCrates) (r : SerializedRequest) (send : RawSendRequest)
    (q : Result Text SerializedRequest)
    → crates.serialize (codes "eth_gasPrice") r.id ≡ q
    → fee_override crates r ≢ intercept send
unfolding fee_override
fee_override-intercept crates r send (ok s) h = rw (h, fee_override) (λ e. cc)
fee_override-intercept crates r send (err x) h = rw (h, fee_override) (λ e. cc)

enabled-single :
    (crates : WireCrates) (r : SerializedRequest) (send : RawSendRequest)
    → route_enabled crates (single r) ≡ intercept send
    → IsTakenOver crates (single r) send
unfolding route_enabled raw_send_request single_send_raw_request
enabled-single crates r send e = elim (Bool-cases (text_eq r.method send_raw_transaction)) [
  | inr other ↦ absurd (not_taken_over crates (single r) send (rw other) e)
  | inl m ↦ elim (Option-cases (rejection_reason crates true (single r))) [
    | inr (reason, f) ↦ absurd (cc (rejection-route crates (single r) reason f, e))
    | inl f ↦ taken_over crates (single r) r send _ refl m (sym (accepted crates r f m) ∙ e)
  ]
]

-- A send is taken over only in IGRA mode, from a packet that is one `eth_sendRawTransaction`, with the bytes
-- that its first parameter decodes to, a type that has a payload header, and the hash of these bytes.
pub intercept_lem :
    (crates : WireCrates) (enabled : Bool) (packet : RequestPacket) (send : RawSendRequest)
    → route crates enabled packet ≡ intercept send
    → (enabled ≡ true) × IsTakenOver crates packet send
unfolding route single_send_raw_request
intercept_lem crates false packet send e = absurd (cc)
intercept_lem crates true (batch rs) send e = absurd (not_taken_over crates (batch rs) send refl e)
intercept_lem crates true (single r) send e =
    elim (Bool-cases (text_eq r.method (codes "eth_maxPriorityFeePerGas"))) [
      | inl fee ↦ absurd (
          fee_override-intercept crates r send _ refl (
            ap (λ b. if b then fee_override crates r else route_enabled crates (single r)) (sym fee)
            ∙ e))
      | inr other ↦ (
        refl,
        enabled-single crates r send (
            ap (λ b. if b then fee_override crates r else route_enabled crates (single r))
              (sym other)
            ∙ e),
      )
    ]
