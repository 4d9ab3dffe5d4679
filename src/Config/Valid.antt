-- ===== src/Config/Valid.antt =====
-- crates/igra/src/config.rs: what a configuration that `validate` accepts gives the submission.
use igra_foundry_sdk.Prelude.{
  ℕ, ◌≡◌, ◌≢◌, refl, ◌%◌, ◌<◌, true, Option, none, some, [], ◌∷◌, Result, ok, err, arith, all,
  ==_iff, ◌>>=◌, bind_ok, ensure_ok, if◌then◌else◌, not, sym, subst,
}
use igra_foundry_sdk.Prelude.Text.{
  Text, codes, text_eq, trim, to_ascii_lowercase, one_of, byte_len, is_hexdigit,
}
use igra_foundry_sdk.Payload.Format.{Bytes, payload_header, build_igra_l2data}
use igra_foundry_sdk.Config.{
  IgraConfig, IgraConfigError, required_str, non_empty, required_positive, validate_positive_opt,
  validate_endpoints, supported_networks, validate_network, validate_prefix, validate_limits,
  validate_compression, validate_enabled, validate,
}

-- A number that may be missing, but is not zero.
abbrev NotZero : Option ℕ → Type 0
NotZero none = Unit
NotZero (some n) = 0 < n

-- A trimmed prefix that is there, of whole bytes in hex.
abbrev IsPrefix : Option Text → Type 0
IsPrefix none = ⊥
IsPrefix (some p) = (trim p ≢ []) × (byte_len (trim p) % 2 ≡ 0) × (all is_hexdigit (trim p) ≡ true)

abbrev IsNetwork : Option Text → Type 0
IsNetwork none = ⊥
IsNetwork (some n) = one_of (trim n) supported_networks ≡ true

abbrev IsPositive : Option ℕ → Type 0
IsPositive none = ⊥
IsPositive (some n) = 0 < n

pub record IsUsable (c : IgraConfig) : Type 0 where
  pub compression :
      (raw : Bytes) → build_igra_l2data raw c.payload_compression ≡ ok (payload_header, raw)
  pub prefix : IsPrefix c.tx_id_prefix
  pub network : IsNetwork c.kaspa_network
  pub chain_id : IsPositive c.expected_el_chain_id
  pub receipt_timeout : IsPositive c.el_receipt_timeout_secs
  pub mining_timeout : NotZero c.mining_timeout_secs
  pub lock_timeout : NotZero c.sender_lock_timeout_secs

trimmed_lem : (field s t : Text) → non_empty field s ≡ ok t → (s ≡ t) × (t ≢ [])
trimmed_lem field [] t h = absurd (cc)
trimmed_lem field (c ∷ s) t h = (cc, λ e. cc)

required_lem :
    (field : Text) (o : Option Text) (t : Text)
    → required_str field o ≡ ok t
    → (s : Text) × ((o ≡ some s) × (trim s ≡ t) × (t ≢ []))
unfolding required_str
required_lem field none t h = absurd (cc)
required_lem field (some s) t h =
    (s, (refl, (trimmed_lem field (trim s) t h).0, (trimmed_lem field (trim s) t h).1))

compression_lem :
    (mode : Option Text) (raw : Bytes)
    → validate_compression mode ≡ ok tt
    → build_igra_l2data raw mode ≡ ok (payload_header, raw)
unfolding validate_compression build_igra_l2data one_of text_eq to_ascii_lowercase trim
compression_lem none raw h = refl
compression_lem (some mode) raw h = ground arith

prefix_lem : (c : IgraConfig) → validate_prefix c ≡ ok tt → IsPrefix c.tx_id_prefix
unfolding validate_prefix
prefix_lem c h =
    let (t, (found, checks)) = bind_ok _ _ tt h in
    let (_, (even, hex)) = bind_ok _ _ tt checks in
    let (s, (present, same, full)) = required_lem _ _ t found in
    let even' : byte_len t % 2 ≡ 0 = (==_iff (byte_len t % 2) 0).0 (ensure_ok _ _ even) in
    subst IsPrefix (sym present) (rw same (full, even', ensure_ok _ _ hex))

network_lem : (c : IgraConfig) → validate_network c ≡ ok tt → IsNetwork c.kaspa_network
unfolding validate_network
network_lem c h =
    let (t, (found, check)) = bind_ok _ _ tt h in
    let (s, (present, same, full)) = required_lem _ _ t found in
    subst IsNetwork (sym present) (rw same (ensure_ok _ _ check))

positive_lem : (field : Text) (n : Option ℕ) → required_positive field n ≡ ok tt → IsPositive n
unfolding required_positive
positive_lem field none h = cc
positive_lem field (some n) h = ground arith

not_zero_lem : (field : Text) (n : Option ℕ) → validate_positive_opt field n ≡ ok tt → NotZero n
unfolding validate_positive_opt
not_zero_lem field none h = tt
not_zero_lem field (some n) h = ground arith

limits_lem :
    (c : IgraConfig)
    → validate_limits c ≡ ok tt
    → NotZero c.sender_lock_timeout_secs × NotZero c.mining_timeout_secs
unfolding validate_limits
limits_lem c h =
    let (_, (lock, rest)) = bind_ok _ _ tt h in
    let (_, (mining, _)) = bind_ok _ _ tt rest in (not_zero_lem _ _ lock, not_zero_lem _ _ mining)

-- Seven checks in a row.
all_ok :
    (a b c d e f g : Result IgraConfigError (Unit {0}))
    → (a >>= λ _. b >>= λ _. c >>= λ _. d >>= λ _. e >>= λ _. f >>= λ _. g) ≡ ok tt
    → (b ≡ ok tt) × (c ≡ ok tt) × (d ≡ ok tt) × (e ≡ ok tt) × (f ≡ ok tt) × (g ≡ ok tt)
all_ok (err x) b c d e f g h = absurd (cc)
all_ok (ok _) (err x) c d e f g h = absurd (cc)
all_ok (ok _) (ok _) (err x) d e f g h = absurd (cc)
all_ok (ok _) (ok _) (ok _) (err x) e f g h = absurd (cc)
all_ok (ok _) (ok _) (ok _) (ok _) (err x) f g h = absurd (cc)
all_ok (ok _) (ok _) (ok _) (ok _) (ok _) (err x) g h = absurd (cc)
all_ok (ok _) (ok _) (ok _) (ok _) (ok _) (ok _) (err x) h = absurd (cc)
all_ok (ok _) (ok _) (ok _) (ok _) (ok _) (ok _) (ok _) h = (refl, refl, refl, refl, refl, refl)

enabled_lem :
    (parse_url : Text → Result Text Text) (c : IgraConfig)
    → validate_enabled parse_url c ≡ ok tt
    → IsUsable c
unfolding validate_enabled
enabled_lem parse_url c h =
    let (chain, network, prefix, receipt, limits, compression) =
      all_ok (validate_endpoints parse_url c)
        (required_positive (codes "expected_el_chain_id") c.expected_el_chain_id)
        (validate_network c) (validate_prefix c)
        (required_positive (codes "el_receipt_timeout_secs") c.el_receipt_timeout_secs)
        (validate_limits c) (validate_compression c.payload_compression) h in
    let (lock, mining) = limits_lem c limits in
    record {
      compression = λ raw. compression_lem c.payload_compression raw compression;
      prefix = prefix_lem c prefix;
      network = network_lem c network;
      chain_id = positive_lem _ _ chain;
      receipt_timeout = positive_lem _ _ receipt;
      mining_timeout = mining;
      lock_timeout = lock;
    }

-- When IGRA mode is on, a configuration that passes has what the submission needs: its compression mode
-- leaves the L2 data as they are, its transaction-id prefix is not empty and whole bytes of hex, its network is
-- a supported one up to white space, its chain id and its receipt timeout are there and positive, and the
-- mining and lock timeouts are positive when they are set.
pub validate-IsUsable :
    (parse_url : Text → Result Text Text) (c : IgraConfig)
    → c.enabled ≡ true
    → validate parse_url c ≡ ok tt
    → IsUsable c
unfolding validate
validate-IsUsable parse_url c on h =
    enabled_lem parse_url c
      (subst (λ b. (if not b then ok tt else validate_enabled parse_url c) ≡ ok tt) on h)
