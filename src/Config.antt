-- ===== src/Config.antt =====
-- crates/igra/src/config.rs: the configuration and `validate`.
pub mod Valid
pub mod Regression
use igra_foundry_sdk.Prelude.{
  ℕ, ◌%◌, Bool, not, ◌&&◌, Option, none, some, List, [], ◌∷◌, ◌++◌, Result, ok, err, ◌>>=◌, ◌>>◌,
  ensure, is_none, all, ◌==◌, if◌then◌else◌,
}
use igra_foundry_sdk.Prelude.Text.{
  Text, codes, trim, to_ascii_lowercase, text_eq, one_of, is_hexdigit, byte_len,
}

pub record IgraKaspaWalletConfig : Type 0 where
  pub private_key : Option Text
  pub mnemonic : Option Text
  pub mnemonic_passphrase : Option Text
  pub mnemonic_derivation_path : Option Text
  pub mnemonic_index : Option ℕ
  pub keystore : Option Text
  pub keystore_account : Option Text
  pub password : Option Text

abbrev pub default_wallet : IgraKaspaWalletConfig
default_wallet = record {
  private_key = none;
  mnemonic = none;
  mnemonic_passphrase = none;
  mnemonic_derivation_path = none;
  mnemonic_index = none;
  keystore = none;
  keystore_account = none;
  password = none;
}

pub is_empty : IgraKaspaWalletConfig → Bool
is_empty w =
    is_none w.private_key
    && is_none w.mnemonic
    && is_none w.mnemonic_passphrase
    && is_none w.mnemonic_derivation_path
    && is_none w.mnemonic_index
    && is_none w.keystore
    && is_none w.keystore_account
    && is_none w.password

pub record IgraConfig : Type 0 where
  pub enabled : Bool
  pub el_rpc_url : Option Text
  pub kaspa_rpc_url : Option Text
  pub expected_el_chain_id : Option ℕ
  pub kaspa_network : Option Text
  pub tx_id_prefix : Option Text
  pub el_receipt_timeout_secs : Option ℕ
  pub mining_timeout_secs : Option ℕ
  pub payload_compression : Option Text
  pub sender_lock_timeout_secs : Option ℕ
  pub completed_retention_hours : Option ℕ
  pub failed_retention_hours : Option ℕ
  pub max_db_size_mb : Option ℕ
  pub kaspa_wallet : IgraKaspaWalletConfig

pub data IgraConfigError : Type 0 where
  missing : Text → IgraConfigError
  invalid : Text → Text → IgraConfigError

-- The `#[error(...)]` texts.
unfoldable pub to_string : IgraConfigError → Text
to_string (missing field) =
    codes "IGRA config error: `" ++ field ++ codes "` is required when `igra.enabled=true`"
to_string (invalid field reason) =
    codes "IGRA config error: `" ++ field ++ codes "` is invalid: " ++ reason

abbrev pub non_empty : Text → Text → Result IgraConfigError Text
non_empty field [] = err (missing field)
non_empty field (c ∷ s) = ok (c ∷ s)

pub required_str : Text → Option Text → Result IgraConfigError Text
required_str field none = err (missing field)
required_str field (some value) = non_empty field (trim value)

abbrev must_be_positive : Text
must_be_positive = codes "must be greater than zero"

pub validate_positive_opt : Text → Option ℕ → Result IgraConfigError (Unit {0})
validate_positive_opt field none = ok tt
validate_positive_opt field (some n) =
    if n == 0 then err (invalid field must_be_positive) else ok tt

pub required_positive : Text → Option ℕ → Result IgraConfigError (Unit {0})
required_positive field none = err (missing field)
required_positive field (some n) = if n == 0 then err (invalid field must_be_positive) else ok tt

abbrev separated : List Text → Text
separated [] = []
separated (s ∷ []) = s
separated (s ∷ t ∷ ts) = s ++ codes ", " ++ separated (t ∷ ts)

-- `Url::parse` is the parameter: it answers the scheme of a URL, or an error text.
module _ (parse_url : Text → Result Text Text) where
  pub parsed : Text → Result Text Text → Result IgraConfigError Text
  parsed field (ok scheme) = ok scheme
  parsed field (err e) = err (invalid field (codes "invalid URL: " ++ e))

  validate_url : Text → Text → Result IgraConfigError (Unit {0})
  unfolding parsed
  validate_url field value = do scheme ← parsed field (parse_url value); ok tt

  validate_scheme : Text → Text → List Text → Result IgraConfigError (Unit {0})
  unfolding parsed
  validate_scheme field value allowed_schemes = do
    scheme ← parsed field (parse_url value)
    ensure (one_of scheme allowed_schemes) (
        invalid field (
          codes "unsupported URL scheme `"
          ++ scheme
          ++ codes "` (expected one of "
          ++ separated allowed_schemes
          ++ codes ")"))

  abbrev el_schemes : List Text
  el_schemes = codes "http" ∷ codes "https" ∷ codes "ws" ∷ codes "wss" ∷ []

  abbrev kaspa_schemes : List Text
  kaspa_schemes = codes "grpc" ∷ codes "grpcs" ∷ codes "http" ∷ codes "https" ∷ []

  pub validate_endpoints : IgraConfig → Result IgraConfigError (Unit {0})
  unfolding required_str validate_url validate_scheme
  validate_endpoints c = do
    el_rpc_url ← required_str (codes "el_rpc_url") c.el_rpc_url
    validate_url (codes "el_rpc_url") el_rpc_url
    validate_scheme (codes "el_rpc_url") el_rpc_url el_schemes
    kaspa_rpc_url ← required_str (codes "kaspa_rpc_url") c.kaspa_rpc_url
    validate_url (codes "kaspa_rpc_url") kaspa_rpc_url
    validate_scheme (codes "kaspa_rpc_url") kaspa_rpc_url kaspa_schemes

abbrev pub supported_networks : List Text
supported_networks =
    codes "mainnet" ∷ codes "testnet-10" ∷ codes "devnet" ∷ codes "simnet" ∷ codes "custom" ∷ []

pub validate_network : IgraConfig → Result IgraConfigError (Unit {0})
unfolding required_str
validate_network c = do
  kaspa_network ← required_str (codes "kaspa_network") c.kaspa_network
  ensure (one_of kaspa_network supported_networks) (
      invalid (codes "kaspa_network") (
        codes "unsupported network `"
        ++ kaspa_network
        ++ codes "` (expected one of mainnet, testnet-10, devnet, simnet, custom)"))

pub validate_prefix : IgraConfig → Result IgraConfigError (Unit {0})
unfolding required_str
validate_prefix c = do
  tx_id_prefix ← required_str (codes "tx_id_prefix") c.tx_id_prefix
  ensure (byte_len tx_id_prefix % 2 == 0)
      (invalid (codes "tx_id_prefix") (codes "must have an even number of hex characters"))
  ensure (all is_hexdigit tx_id_prefix)
      (invalid (codes "tx_id_prefix") (codes "must be hex-encoded"))

pub validate_compression : Option Text → Result IgraConfigError (Unit {0})
validate_compression none = ok tt
validate_compression (some mode) =
    if text_eq (to_ascii_lowercase (trim mode)) (codes "zlib")
    then err (invalid (codes "payload_compression") (codes "zlib is not implemented; use `none`"))
    else if one_of (to_ascii_lowercase (trim mode)) ([] ∷ codes "none" ∷ [])
    then ok tt
    else err (invalid (codes "payload_compression") (codes "supported values: none"))

pub validate_limits : IgraConfig → Result IgraConfigError (Unit {0})
unfolding validate_positive_opt
validate_limits c = do
  validate_positive_opt (codes "sender_lock_timeout_secs") c.sender_lock_timeout_secs
  validate_positive_opt (codes "mining_timeout_secs") c.mining_timeout_secs
  validate_positive_opt (codes "completed_retention_hours") c.completed_retention_hours
  validate_positive_opt (codes "failed_retention_hours") c.failed_retention_hours
  validate_positive_opt (codes "max_db_size_mb") c.max_db_size_mb

-- The checks of `validate` once IGRA mode is on.
pub validate_enabled : (Text → Result Text Text) → IgraConfig → Result IgraConfigError (Unit {0})
unfolding validate_endpoints required_positive validate_network validate_prefix validate_limits
    validate_compression
validate_enabled parse_url c = do
  validate_endpoints parse_url c
  required_positive (codes "expected_el_chain_id") c.expected_el_chain_id
  validate_network c
  validate_prefix c
  required_positive (codes "el_receipt_timeout_secs") c.el_receipt_timeout_secs
  validate_limits c
  validate_compression c.payload_compression

unfoldable pub validate : (Text → Result Text Text) → IgraConfig → Result IgraConfigError (Unit {0})
unfolding validate_enabled
validate parse_url c = if not c.enabled then ok tt else validate_enabled parse_url c
