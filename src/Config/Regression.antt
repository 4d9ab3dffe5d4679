-- ===== src/Config/Regression.antt =====
-- crates/igra/src/config.rs: the tests of the file, run on the model.
use igra_foundry_sdk.Prelude.{
  ◌≡◌, refl, Bool, true, false, not, ◌&&◌, none, some, List, [], ◌∷◌, Result, ok, err, all, ◌==◌,
  if◌then◌else◌,
}
use igra_foundry_sdk.Prelude.Text.{
  Text, codes, text_eq, contains, trim, one_of, byte_len, is_hexdigit, to_ascii_lowercase,
}
use igra_foundry_sdk.Config.{
  IgraConfig, IgraConfigError, default_wallet, is_empty, validate, to_string,
}

-- `Url::parse` on the URLs of the tests: the scheme stands before the first colon.
abbrev scheme_of : Text → Text
scheme_of [] = []
scheme_of (c ∷ s) = if c == b':' then [] else c ∷ scheme_of s

abbrev pub parse_url : Text → Result Text Text
parse_url url = ok (scheme_of url)

abbrev pub passes : Result IgraConfigError (Unit {0}) → Bool
passes (ok _) = true
passes (err e) = false

-- `unwrap_err().to_string().contains(part)` for each part.
abbrev fails_with : List Text → Result IgraConfigError (Unit {0}) → Bool
fails_with parts (ok _) = false
fails_with parts (err e) = all (λ part. contains (to_string e) part) parts

abbrev valid_config : IgraConfig
valid_config = record {
  enabled = true;
  el_rpc_url = some (codes "http://127.0.0.1:8545");
  kaspa_rpc_url = some (codes "grpc://127.0.0.1:16110");
  expected_el_chain_id = some 1337;
  kaspa_network = some (codes "testnet-10");
  tx_id_prefix = some (codes "97b1");
  el_receipt_timeout_secs = some 300;
  mining_timeout_secs = some 120;
  payload_compression = none;
  sender_lock_timeout_secs = some 60;
  completed_retention_hours = some 168;
  failed_retention_hours = some 720;
  max_db_size_mb = some 512;
  kaspa_wallet = default_wallet;
}

abbrev validate_accepts_valid_config : Bool
validate_accepts_valid_config = passes (validate parse_url valid_config)

abbrev validate_rejects_invalid_prefix : Bool
validate_rejects_invalid_prefix =
    fails_with (codes "IGRA config error" ∷ codes "tx_id_prefix" ∷ [])
      (validate parse_url (record valid_config { tx_id_prefix = some (codes "zz") }))

abbrev validate_rejects_odd_length_prefix : Bool
validate_rejects_odd_length_prefix =
    fails_with (codes "even number of hex" ∷ [])
      (validate parse_url (record valid_config { tx_id_prefix = some (codes "abc") }))

abbrev validate_rejects_unsupported_kaspa_scheme : Bool
validate_rejects_unsupported_kaspa_scheme = fails_with (codes "unsupported URL scheme" ∷ []) (
    validate parse_url
      (record valid_config { kaspa_rpc_url = some (codes "ws://127.0.0.1:16110") }))

-- The whole text, as `assert_eq!` compares it.
abbrev fails_as : Text → Result IgraConfigError (Unit {0}) → Bool
fails_as message (ok _) = false
fails_as message (err e) = text_eq (to_string e) message

abbrev validate_rejects_missing_required_field : Bool
validate_rejects_missing_required_field =
    fails_as (codes "IGRA config error: `el_rpc_url` is required when `igra.enabled=true`")
      (validate parse_url (record valid_config { el_rpc_url = none }))

abbrev validate_rejects_zero_chain_id : Bool
validate_rejects_zero_chain_id =
    fails_with (codes "expected_el_chain_id" ∷ codes "must be greater than zero" ∷ [])
      (validate parse_url (record valid_config { expected_el_chain_id = some 0 }))

abbrev validate_rejects_zero_receipt_timeout : Bool
validate_rejects_zero_receipt_timeout =
    fails_with (codes "el_receipt_timeout_secs" ∷ [])
      (validate parse_url (record valid_config { el_receipt_timeout_secs = some 0 }))

abbrev validate_rejects_whitespace_strings_as_missing : Bool
validate_rejects_whitespace_strings_as_missing =
    fails_as (codes "IGRA config error: `kaspa_network` is required when `igra.enabled=true`")
      (validate parse_url (record valid_config { kaspa_network = some (codes "   ") }))

abbrev validate_accepts_all_supported_networks : Bool
validate_accepts_all_supported_networks =
    all
      (λ network.
        passes (validate parse_url (record valid_config { kaspa_network = some network })))
      (codes "mainnet" ∷ codes "testnet-10" ∷ codes "devnet" ∷ codes "simnet" ∷ codes "custom" ∷ [])

abbrev validate_rejects_zero_cache_constraints : Bool
validate_rejects_zero_cache_constraints =
    fails_with (codes "sender_lock_timeout_secs" ∷ [])
      (validate parse_url (record valid_config { sender_lock_timeout_secs = some 0 }))
    && fails_with (codes "mining_timeout_secs" ∷ [])
        (validate parse_url (record valid_config { mining_timeout_secs = some 0 }))
    && fails_with (codes "completed_retention_hours" ∷ [])
        (validate parse_url (record valid_config { completed_retention_hours = some 0 }))
    && fails_with (codes "failed_retention_hours" ∷ [])
        (validate parse_url (record valid_config { failed_retention_hours = some 0 }))
    && fails_with (codes "max_db_size_mb" ∷ [])
        (validate parse_url (record valid_config { max_db_size_mb = some 0 }))

abbrev validate_rejects_invalid_payload_compression : Bool
validate_rejects_invalid_payload_compression =
    fails_with (codes "payload_compression" ∷ codes "supported values" ∷ [])
      (validate parse_url (record valid_config { payload_compression = some (codes "brotli") }))

abbrev validate_skips_when_disabled : Bool
validate_skips_when_disabled =
    passes (validate parse_url (record valid_config { enabled = false; el_rpc_url = none }))

abbrev wallet_config_default_is_empty : Bool
wallet_config_default_is_empty = is_empty default_wallet

abbrev wallet_config_with_key_is_not_empty : Bool
wallet_config_with_key_is_not_empty =
    not (is_empty (record default_wallet { private_key = some (codes "0x1234") }))

-- Every test of config.rs passes on the model.
config_tests_pass :
    (validate_accepts_valid_config && validate_rejects_invalid_prefix
      && validate_rejects_odd_length_prefix && validate_rejects_unsupported_kaspa_scheme
      && validate_rejects_missing_required_field && validate_rejects_zero_chain_id
      && validate_rejects_zero_receipt_timeout && validate_rejects_whitespace_strings_as_missing
      && validate_accepts_all_supported_networks && validate_rejects_zero_cache_constraints
      && validate_rejects_invalid_payload_compression && validate_skips_when_disabled
      && wallet_config_default_is_empty && wallet_config_with_key_is_not_empty)
    ≡ true
unfolding validate trim one_of text_eq byte_len is_hexdigit contains to_string to_ascii_lowercase
    is_empty
config_tests_pass = refl
