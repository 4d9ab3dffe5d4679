-- ===== src/Keys/Regression.antt =====
-- crates/igra/src/keys.rs: the tests of the file that do not depend on what BIP32, secp256k1 or the
-- address encoding compute, run on the model.
use igra_foundry_sdk.Prelude.{
  ℕ, ◌≡◌, refl, ◌+◌, ◌-◌, ◌*◌, Bool, true, false, ◌&&◌, not, Option, none, some, [], ◌∷◌, ◌++◌,
  Result, ok, err, leb, ◌==◌, if◌then◌else◌, length,
}
use igra_foundry_sdk.Prelude.Text.{Text, codes, text_eq, contains, strip_0x, trim, is_hexdigit}
use igra_foundry_sdk.Config.{default_wallet}
use igra_foundry_sdk.Keys.{
  Bytes, KeyCrates, kaspa_network_descriptor, parse_private_key_hex, resolve_mnemonic_private_key,
  resolve_kaspa_private_key,
}

-- `B256::from_str`: 64 hexadecimal digits, with or without `0x`.
abbrev digit_value : ℕ → ℕ
digit_value c = if leb c 57 then c - 48 else if leb c 70 then c - 55 else c - 87

abbrev hex_bytes : Text → Option Bytes
hex_bytes [] = some []
hex_bytes (a ∷ []) = none
hex_bytes (a ∷ b ∷ s) =
    let rest = hex_bytes s in
    if is_hexdigit a && is_hexdigit b
    then elim rest [
      | none ↦ none
      | some bytes ↦ some ((16 * digit_value a + digit_value b) ∷ bytes)
    ]
    else none

abbrev b256 : Text → Option Bytes
b256 s = if length (strip_0x s) == 64 then hex_bytes (strip_0x s) else none

-- No mnemonic is valid here but the one of the tests, and derivation changes nothing.
abbrev junk : Text
junk = codes "test test test test test test test test test test test junk"

abbrev crates : KeyCrates
crates = record {
  parse_b256 = b256;
  is_file = λ path. false;
  read_file = λ path. err (codes "no such file");
  mnemonic_seed =
      λ phrase passphrase. if text_eq phrase junk then ok (1 ∷ []) else err (codes "word count");
  master_key = λ seed. ok seed;
  parse_path = λ path. ok path;
  derive_path = λ key path. ok key;
  child_number = λ index. ok index;
  derive_child = λ key index. ok key;
  decrypt_keystore = λ path password. err (codes "no such file");
  address = λ key prefix. err (codes "no address");
  join_path = λ dir name. dir ++ name;
}

abbrev is_key : Result Text Bytes → Bool
is_key (ok key) = true
is_key (err e) = false

abbrev starts_at_one : Result Text Bytes → Bool
starts_at_one (ok (b ∷ key)) = b == 1
starts_at_one (ok []) = false
starts_at_one (err e) = false

abbrev says : Text → Result Text Bytes → Bool
says part (ok key) = false
says part (err e) = contains e part

abbrev hex_key : Text
hex_key = codes "0123456789abcdef0123456789abcdef0123456789abcdef0123456789abcdef"

abbrev parse_hex_key_with_0x_prefix : Bool
parse_hex_key_with_0x_prefix = starts_at_one (parse_private_key_hex crates (codes "0x" ++ hex_key))

abbrev parse_hex_key_without_prefix : Bool
parse_hex_key_without_prefix = is_key (parse_private_key_hex crates hex_key)

abbrev parse_hex_key_rejects_short : Bool
parse_hex_key_rejects_short = not (is_key (parse_private_key_hex crates (codes "0x1234")))

abbrev parse_hex_key_trims_whitespace : Bool
parse_hex_key_trims_whitespace =
    is_key (parse_private_key_hex crates (codes "  0x" ++ hex_key ++ codes "  "))

abbrev resolve_from_private_key_config : Bool
resolve_from_private_key_config =
    is_key
      (resolve_kaspa_private_key crates (record default_wallet { private_key = some hex_key }) none)

abbrev resolve_from_mnemonic_config : Bool
resolve_from_mnemonic_config =
    is_key (resolve_kaspa_private_key crates (record default_wallet { mnemonic = some junk }) none)

abbrev resolve_fails_with_empty_config : Bool
resolve_fails_with_empty_config =
    says (codes "IGRA key resolution error") (resolve_kaspa_private_key crates default_wallet none)

abbrev invalid_mnemonic_returns_error : Bool
invalid_mnemonic_returns_error =
    says (codes "invalid Kaspa mnemonic")
      (resolve_mnemonic_private_key crates (codes "not a valid mnemonic") none none 0)

abbrev is_known : Text → Bool
is_known network = elim (kaspa_network_descriptor network) [ ok _ ↦ true | err e ↦ false ]

abbrev network_descriptor_maps_correctly : Bool
network_descriptor_maps_correctly =
    is_known (codes "mainnet")
    && is_known (codes "testnet-10")
    && is_known (codes "devnet")
    && is_known (codes "simnet")
    && not (is_known (codes "custom"))
    && not (is_known (codes "invalid"))

-- These tests of keys.rs pass on the model.
key_tests_pass :
    (parse_hex_key_with_0x_prefix && parse_hex_key_without_prefix && parse_hex_key_rejects_short
      && parse_hex_key_trims_whitespace && resolve_from_private_key_config
      && resolve_from_mnemonic_config && resolve_fails_with_empty_config
      && invalid_mnemonic_returns_error && network_descriptor_maps_correctly)
    ≡ true
unfolding parse_private_key_hex strip_0x trim contains kaspa_network_descriptor text_eq is_hexdigit
    resolve_kaspa_private_key resolve_mnemonic_private_key
key_tests_pass = refl
