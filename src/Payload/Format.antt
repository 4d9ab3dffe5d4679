-- ===== src/Payload/Format.antt =====
-- crates/igra/src/payload.rs: `normalize_hex_prefix`, `build_payload_with_nonce` and
-- `build_igra_l2data`.
use igra_foundry_sdk.Prelude.{
  ℕ, suc, ◌+◌, ◌-◌, ◌*◌, ◌/◌, ◌%◌, ◌^◌, ◌<◌, ◌≡◌, refl, Option, List, [], ◌∷◌, ◌++◌, Result, ok,
  err, arith, unwrap_or, if◌then◌else◌, length, take, drop, length-append, take-length-append,
  drop-length-append,
}
use igra_foundry_sdk.Prelude.Text.{
  Text, codes, trim, to_ascii_lowercase, strip_all_0x, text_eq, one_of,
}

unfoldable pub normalize_hex_prefix : Text → Text
normalize_hex_prefix prefix = to_ascii_lowercase (strip_all_0x (trim prefix))

abbrev pub Bytes : Type 0
Bytes = List ℕ

-- `u32::to_be_bytes`, and the number that four bytes stand for.
to_be_bytes : ℕ → Bytes
to_be_bytes n = (n / 2 ^ 24 % 256) ∷ (n / 2 ^ 16 % 256) ∷ (n / 2 ^ 8 % 256) ∷ (n % 256) ∷ []

abbrev pub from_be_bytes : Bytes → ℕ
from_be_bytes (a ∷ b ∷ c ∷ d ∷ []) = a * 2 ^ 24 + b * 2 ^ 16 + c * 2 ^ 8 + d
from_be_bytes _ = 0

unfoldable pub build_payload_with_nonce : ℕ → Bytes → ℕ → Bytes
unfolding to_be_bytes
build_payload_with_nonce header l2data nonce = header ∷ (l2data ++ to_be_bytes nonce)

-- `(IGRA_VERSION << 4) | TX_TYPE_RAW_UNCOMPRESSED`
abbrev pub payload_header : ℕ
payload_header = 0x9 * 2 ^ 4 + 0x4

compression_mode : Option Text → Text
compression_mode payload_compression =
    to_ascii_lowercase (trim (unwrap_or payload_compression (codes "none")))

unfoldable pub build_igra_l2data : Bytes → Option Text → Result Text (ℕ × Bytes)
unfolding compression_mode
build_igra_l2data raw_tx payload_compression =
    if one_of (compression_mode payload_compression) ([] ∷ codes "none" ∷ [])
    then ok (payload_header, raw_tx)
    else if text_eq (compression_mode payload_compression) (codes "zlib")
    then err (codes "IGRA config error: `payload_compression=zlib` is not implemented; use `none`")
    else err (codes "IGRA config error: `payload_compression` is invalid (supported: none)")

-- `tx.payload[nonce_offset..].copy_from_slice(&nonce.to_be_bytes())`
unfoldable pub set_nonce : Bytes → ℕ → Bytes
unfolding to_be_bytes
set_nonce payload nonce = take (length payload - 4) payload ++ to_be_bytes nonce

payload-length :
    (header : ℕ) (l2data : Bytes) (nonce : ℕ)
    → length (build_payload_with_nonce header l2data nonce) ≡ length l2data + 5
unfolding build_payload_with_nonce
payload-length header l2data nonce = omega (arith, length-append l2data (to_be_bytes nonce))

-- A reader that knows the length of the payload gets the header, the L2 data and the 32-bit nonce
-- back.
pub payload_roundtrip :
    (header : ℕ) (l2data : Bytes) (nonce : ℕ)
    → nonce < 2 ^ 32
    → let payload = build_payload_with_nonce header l2data nonce in
      (length payload ≡ length l2data + 5)
      × (take 1 payload ≡ header ∷ [])
      × (take (length payload - 5) (drop 1 payload) ≡ l2data)
      × (from_be_bytes (drop (length payload - 4) payload) ≡ nonce)
unfolding build_payload_with_nonce
payload_roundtrip header l2data nonce h =
    let n = length l2data in
    let len = length (build_payload_with_nonce header l2data nonce) in
    let e : len ≡ n + 5 = payload-length header l2data nonce in
    let middle : len - 5 ≡ n = omega (arith, e) in
    let last : len - 4 ≡ suc n = omega (arith, e) in
    (
      e,
      refl,
      rw middle (take-length-append l2data (to_be_bytes nonce)),
      rw (last, drop-length-append l2data (to_be_bytes nonce)) (omega arith),
    )

-- Writing a nonce over the last four bytes of a payload gives the payload that is built with that
-- nonce.
pub set_nonce-build_payload :
    (header : ℕ) (l2data : Bytes) (old nonce : ℕ)
    → set_nonce (build_payload_with_nonce header l2data old) nonce
      ≡ build_payload_with_nonce header l2data nonce
unfolding set_nonce build_payload_with_nonce
set_nonce-build_payload header l2data old nonce =
    let len = length (build_payload_with_nonce header l2data old) in
    let front : len - 4 ≡ suc (length l2data) = omega (arith, payload-length header l2data old) in
    rw (front, take-length-append l2data (to_be_bytes old))
