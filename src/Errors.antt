-- ===== src/Errors.antt =====
-- crates/igra/src/errors.rs: the catalog of error codes and the guard of signer flows.
pub mod Regression
use igra_foundry_sdk.Prelude.{
  Bool, true, not, ◌||◌, ◌≡◌, refl, Option, none, some, ◌++◌, Result, ok, err, ◌>>◌, ensure,
  if◌then◌else◌, arith,
}
use igra_foundry_sdk.Prelude.Text.{Text, codes, text_eq, text_eq_iff}
use igra_foundry_sdk.Config.{IgraConfigError}

abbrev igra_signer_guardrail_code : Text
igra_signer_guardrail_code = codes "IGRA_SIG_001"

pub record IgraErrorCatalogEntry : Type 0 where
  pub code : Text
  pub message : Text
  pub remediation : Text

unfoldable pub error_catalog_entry : Text → Option IgraErrorCatalogEntry
error_catalog_entry code =
    if text_eq code igra_signer_guardrail_code
    then some (record {
      code = igra_signer_guardrail_code;
      message = codes "Unsupported signer flow in IGRA mode.";
      remediation = codes "Use a local raw-signing wallet instead of unlocked/browser flows.";
    })
    else if text_eq code (codes "IGRA_NONCE_001")
    then some (record {
      code = codes "IGRA_NONCE_001";
      message = codes "Transaction blocked by nonce gap for this sender.";
      remediation =
          codes
            "Submit missing lower-nonce transactions first or wait for prior nonce to progress.";
    })
    else if text_eq code (codes "IGRA_NONCE_002")
    then some (record {
      code = codes "IGRA_NONCE_002";
      message = codes "Sender lock acquisition timed out.";
      remediation =
          codes
            "Retry after in-flight transactions finish; investigate long-running sender operations.";
    })
    else if text_eq code (codes "IGRA_NONCE_003")
    then some (record {
      code = codes "IGRA_NONCE_003";
      message = codes "Sender nonce counter overflowed.";
      remediation = codes "Reset local IGRA cache for this sender/profile and resynchronize state.";
    })
    else if text_eq code (codes "IGRA_NONCE_004")
    then some (record {
      code = codes "IGRA_NONCE_004";
      message = codes "Stale nonce replacement candidate observed.";
      remediation =
          codes "Confirm replacement intent and track the latest tx hash/receipt for this nonce.";
    })
    else none

-- The `eyre` report: an invalid configuration, or a flow that is not supported.
pub data FlowError : Type 0 where
  config : IgraConfigError → FlowError
  unsupported : Text → FlowError

abbrev as_report : Result IgraConfigError (Unit {0}) → Result FlowError (Unit {0})
as_report (ok _) = ok tt
as_report (err e) = err (config e)

unfoldable pub ensure_supported_igra_signer_flow :
    Bool → Result IgraConfigError (Unit {0}) → Text → Bool → Bool → Result FlowError (Unit {0})
ensure_supported_igra_signer_flow igra_enabled config_validation command uses_unlocked
      uses_browser_wallet =
    do
      as_report config_validation
      if not igra_enabled then ok tt else do
        ensure (not uses_unlocked) (
            unsupported (
              igra_signer_guardrail_code
              ++ codes ": IGRA mode does not support `--unlocked` in `"
              ++ command
              ++ codes "`; use a local raw-signing wallet"))
        ensure (not uses_browser_wallet) (
            unsupported (
              igra_signer_guardrail_code
              ++ codes ": IGRA mode does not support browser wallet signer flows in `"
              ++ command
              ++ codes "`; use a local raw-signing wallet"))

-- A flow passes only when its configuration is valid and, in IGRA mode, it uses neither an
-- unlocked account nor a browser wallet.
pub signer_flow_ok :
    (enabled : Bool) (validation : Result IgraConfigError (Unit {0})) (command : Text)
    (unlocked browser : Bool)
    → ensure_supported_igra_signer_flow enabled validation command unlocked browser ≡ ok tt
    → (validation ≡ ok tt) × ((not enabled || not (unlocked || browser)) ≡ true)
unfolding ensure_supported_igra_signer_flow
signer_flow_ok enabled (ok tt) command unlocked browser h = (refl, ground arith)
signer_flow_ok enabled (err e) command unlocked browser h = absurd (cc)

-- An entry of the catalog is found only under its own code.
catalog_entry_code :
    (code : Text) (entry : IgraErrorCatalogEntry)
    → error_catalog_entry code ≡ some entry
    → entry.code ≡ code
unfolding error_catalog_entry
catalog_entry_code code entry h = ground (
  arith,
  text_eq_iff code igra_signer_guardrail_code,
  text_eq_iff code (codes "IGRA_NONCE_001"),
  text_eq_iff code (codes "IGRA_NONCE_002"),
  text_eq_iff code (codes "IGRA_NONCE_003"),
  text_eq_iff code (codes "IGRA_NONCE_004"),
)
