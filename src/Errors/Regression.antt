-- ===== src/Errors/Regression.antt =====
-- crates/igra/src/errors.rs: the tests of the file, run on the model.
use igra_foundry_sdk.Prelude.{
  ◌≡◌, refl, Bool, true, false, ◌&&◌, not, Option, none, some, List, [], ◌∷◌, Result, ok, err, all,
  is_some, is_none,
}
use igra_foundry_sdk.Prelude.Text.{
  Text, codes, text_eq, contains, trim, one_of, byte_len, is_hexdigit,
}
use igra_foundry_sdk.Config.{IgraConfig, default_wallet, validate, to_string}
use igra_foundry_sdk.Config.Regression.{parse_url}
use igra_foundry_sdk.Errors.{
  IgraErrorCatalogEntry, error_catalog_entry, FlowError, config, unsupported,
  ensure_supported_igra_signer_flow,
}

abbrev valid_igra_config : IgraConfig
valid_igra_config = record {
  enabled = true;
  el_rpc_url = some (codes "http://127.0.0.1:8545");
  kaspa_rpc_url = some (codes "grpc://127.0.0.1:16110");
  expected_el_chain_id = some 1337;
  kaspa_network = some (codes "testnet-10");
  tx_id_prefix = some (codes "97b1");
  el_receipt_timeout_secs = some 300;
  mining_timeout_secs = none;
  payload_compression = none;
  sender_lock_timeout_secs = none;
  completed_retention_hours = none;
  failed_retention_hours = none;
  max_db_size_mb = none;
  kaspa_wallet = default_wallet;
}

abbrev report_text : FlowError → Text
report_text (config e) = to_string e
report_text (unsupported message) = message

abbrev is_supported : Result FlowError (Unit {0}) → Bool
is_supported (ok _) = true
is_supported (err e) = false

abbrev is_refused_with : List Text → Result FlowError (Unit {0}) → Bool
is_refused_with parts (ok _) = false
is_refused_with parts (err e) = all (λ part. contains (report_text e) part) parts

abbrev flow_of : IgraConfig → Bool → Bool → Result FlowError (Unit {0})
flow_of c unlocked browser =
    ensure_supported_igra_signer_flow c.enabled (validate parse_url c) (codes "cast send") unlocked
      browser

abbrev rejects_unlocked_signer_flows : Bool
rejects_unlocked_signer_flows =
    is_refused_with (codes "IGRA_SIG_001" ∷ codes "--unlocked" ∷ [])
      (flow_of valid_igra_config true false)

abbrev rejects_browser_signer_flows : Bool
rejects_browser_signer_flows =
    is_refused_with (codes "IGRA_SIG_001" ∷ codes "browser wallet" ∷ [])
      (flow_of valid_igra_config false true)

abbrev accepts_supported_signer_flows : Bool
accepts_supported_signer_flows = is_supported (flow_of valid_igra_config false false)

abbrev allows_any_flow_when_disabled : Bool
allows_any_flow_when_disabled =
    is_supported (ensure_supported_igra_signer_flow false (ok tt) (codes "cast send") true true)

abbrev validates_config_before_signer_check : Bool
validates_config_before_signer_check =
    is_refused_with (codes "el_rpc_url" ∷ [])
      (flow_of (record valid_igra_config { el_rpc_url = none }) false false)

abbrev is_nonce_gap_entry : Option IgraErrorCatalogEntry → Bool
is_nonce_gap_entry none = false
is_nonce_gap_entry (some entry) =
    text_eq entry.code (codes "IGRA_NONCE_001")
    && contains entry.message (codes "nonce gap")
    && not (text_eq entry.remediation [])

abbrev exposes_error_catalog_entries : Bool
exposes_error_catalog_entries = is_nonce_gap_entry (error_catalog_entry (codes "IGRA_NONCE_001"))

abbrev unknown_error_code_returns_none : Bool
unknown_error_code_returns_none = is_none (error_catalog_entry (codes "UNKNOWN"))

abbrev all_known_codes_resolve : Bool
all_known_codes_resolve =
    all (λ code. is_some (error_catalog_entry code))
      (codes "IGRA_SIG_001"
        ∷ codes "IGRA_NONCE_001"
        ∷ codes "IGRA_NONCE_002"
        ∷ codes "IGRA_NONCE_003"
        ∷ codes "IGRA_NONCE_004"
        ∷ [])

-- Every test of errors.rs passes on the model.
error_tests_pass :
    (rejects_unlocked_signer_flows && rejects_browser_signer_flows && accepts_supported_signer_flows
      && allows_any_flow_when_disabled && validates_config_before_signer_check
      && exposes_error_catalog_entries && unknown_error_code_returns_none
      && all_known_codes_resolve)
    ≡ true
unfolding ensure_supported_igra_signer_flow validate trim one_of text_eq byte_len is_hexdigit
    contains to_string error_catalog_entry
error_tests_pass = refl
