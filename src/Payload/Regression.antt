-- ===== src/Payload/Regression.antt =====
-- crates/igra/src/payload.rs: the tests of the file, run on the model.
use igra_foundry_sdk.Prelude.{
  ℕ, ◌≡◌, refl, ◌+◌, ◌-◌, ◌*◌, ◌/◌, ◌%◌, Bool, true, false, ◌&&◌, none, some, [], ◌∷◌, Result, ok,
  err, ltb, ◌==◌, length, take, drop,
}
use igra_foundry_sdk.Prelude.Text.{
  Text, codes, text_eq, one_of, to_ascii_lowercase, trim, strip_all_0x,
}
use igra_foundry_sdk.Prelude.Words.{u32_max, u64_max}
use igra_foundry_sdk.Payload.Fee.{
  base_submit_fee_sompi, fee_per_kib_sompi, extra_input_fee_sompi, estimated_fee_sompi,
}
use igra_foundry_sdk.Payload.Format.{
  Bytes, normalize_hex_prefix, build_payload_with_nonce, build_igra_l2data,
}

-- `&payload[from..to]`
abbrev slice : ℕ → ℕ → Bytes → Bytes
slice from to bytes = take (to - from) (drop from bytes)

abbrev payload_format_header_l2data_nonce : Bool
payload_format_header_l2data_nonce =
    let payload = build_payload_with_nonce 0x94 (1 ∷ 2 ∷ 3 ∷ []) 0 in
    (length payload == 1 + 3 + 4)
    && text_eq (slice 0 1 payload) (0x94 ∷ [])
    && text_eq (slice 1 4 payload) (1 ∷ 2 ∷ 3 ∷ [])
    && text_eq (slice 4 8 payload) (0 ∷ 0 ∷ 0 ∷ 0 ∷ [])

abbrev payload_nonce_is_big_endian : Bool
payload_nonce_is_big_endian =
    text_eq (slice 1 5 (build_payload_with_nonce 0x94 [] 0x0102_0304)) (1 ∷ 2 ∷ 3 ∷ 4 ∷ [])

abbrev payload_nonce_max_value : Bool
payload_nonce_max_value =
    text_eq (slice 1 5 (build_payload_with_nonce 0x94 [] u32_max)) (255 ∷ 255 ∷ 255 ∷ 255 ∷ [])

abbrev header_is : ℕ → Result Text (ℕ × Bytes) → Bool
header_is h (ok (header, l2data)) = header == h
header_is h (err e) = false

abbrev is_l2data : ℕ → Bytes → Result Text (ℕ × Bytes) → Bool
is_l2data h bytes (ok (header, l2data)) = header == h && text_eq l2data bytes
is_l2data h bytes (err e) = false

abbrev is_refused : Result Text (ℕ × Bytes) → Bool
is_refused (ok _) = false
is_refused (err e) = true

abbrev build_l2data_uncompressed : Bool
build_l2data_uncompressed =
    is_l2data 0x94 (0xf8 ∷ 0x65 ∷ []) (build_igra_l2data (0xf8 ∷ 0x65 ∷ []) none)

abbrev build_l2data_explicit_none : Bool
build_l2data_explicit_none = header_is 0x94 (build_igra_l2data (0xf8 ∷ []) (some (codes "none")))

abbrev build_l2data_rejects_zlib : Bool
build_l2data_rejects_zlib = is_refused (build_igra_l2data (1 ∷ []) (some (codes "zlib")))

abbrev build_l2data_rejects_unknown : Bool
build_l2data_rejects_unknown = is_refused (build_igra_l2data (1 ∷ []) (some (codes "brotli")))

abbrev has_version_and_type : Result Text (ℕ × Bytes) → Bool
has_version_and_type (ok (header, l2data)) = header / 16 == 0x9 && header % 16 == 0x4
has_version_and_type (err e) = false

abbrev payload_header_encodes_version_and_type : Bool
payload_header_encodes_version_and_type = has_version_and_type (build_igra_l2data (1 ∷ []) none)

abbrev fee_base_for_single_input : Bool
fee_base_for_single_input = estimated_fee_sompi 100 1 == base_submit_fee_sompi + fee_per_kib_sompi

abbrev fee_scales_with_payload_size : Bool
fee_scales_with_payload_size =
    estimated_fee_sompi 2048 1 - estimated_fee_sompi 1024 1 == fee_per_kib_sompi

abbrev fee_scales_with_input_count : Bool
fee_scales_with_input_count =
    estimated_fee_sompi 100 3 - estimated_fee_sompi 100 1 == 2 * extra_input_fee_sompi

-- `usize` has 64 bits.
abbrev fee_does_not_overflow : Bool
fee_does_not_overflow = ltb 0 (estimated_fee_sompi u64_max u64_max)

abbrev normalize_hex_strips_0x_and_lowercases : Bool
normalize_hex_strips_0x_and_lowercases =
    text_eq (normalize_hex_prefix (codes "0x97B1")) (codes "97b1")
    && text_eq (normalize_hex_prefix (codes "97b1")) (codes "97b1")
    && text_eq (normalize_hex_prefix (codes "  0x97B1  ")) (codes "97b1")
    && text_eq (normalize_hex_prefix []) []

-- Every test of payload.rs passes on the model.
payload_tests_pass :
    (payload_format_header_l2data_nonce && payload_nonce_is_big_endian && payload_nonce_max_value
      && build_l2data_uncompressed && build_l2data_explicit_none && build_l2data_rejects_zlib
      && build_l2data_rejects_unknown && payload_header_encodes_version_and_type
      && fee_base_for_single_input && fee_scales_with_payload_size && fee_scales_with_input_count
      && fee_does_not_overflow && normalize_hex_strips_0x_and_lowercases)
    ≡ true
unfolding build_payload_with_nonce text_eq build_igra_l2data one_of to_ascii_lowercase trim
    estimated_fee_sompi normalize_hex_prefix strip_all_0x
payload_tests_pass = refl
