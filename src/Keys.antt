-- ===== src/Keys.antt =====
-- crates/igra/src/keys.rs: networks, and where the Kaspa key comes from. Addresses, BIP32, files
-- and keystores are those of other crates and of the system, as parameters.
pub mod Regression
use igra_foundry_sdk.Prelude.{
  ℕ, Bool, ◌||◌, Option, none, some, List, [], ◌∷◌, ◌++◌, Result, ok, err, ◌>>=◌, ok_or, unwrap_or,
  is_some, if◌then◌else◌,
}
use igra_foundry_sdk.Prelude.Text.{Text, codes, trim, text_eq, is_whitespace}
use igra_foundry_sdk.Config.{IgraKaspaWalletConfig}

abbrev pub Bytes : Type 0
Bytes = List ℕ

pub data KaspaNetworkType : Type 0 where
  mainnet testnet devnet simnet : KaspaNetworkType

-- The address prefix of a network has the network's name.
pub kaspa_network_descriptor : Text → Result Text (KaspaNetworkType × KaspaNetworkType)
kaspa_network_descriptor network =
    if text_eq network (codes "mainnet")
    then ok (mainnet, mainnet)
    else if text_eq network (codes "testnet-10")
    then ok (testnet, testnet)
    else if text_eq network (codes "devnet")
    then ok (devnet, devnet)
    else if text_eq network (codes "simnet")
    then ok (simnet, simnet)
    else if text_eq network (codes "custom")
    then err (
        codes
          "IGRA config error: `kaspa_network=custom` requires explicit in-process network mapping")
    else err (codes "IGRA config error: unsupported kaspa_network `" ++ network ++ codes "`")

abbrev igra_key_resolution_error : Text
igra_key_resolution_error =
    codes
      "IGRA key resolution error: cannot derive Kaspa key from current EVM signer; provide --private-key-kaspa or --mnemonic-kaspa"

-- `split_whitespace().collect().join(" ")`: the words, with one blank between two.
words : Text → Text → List Text
unfolding is_whitespace
words [] [] = []
words (c ∷ w) [] = (c ∷ w) ∷ []
words [] (c ∷ s) = if is_whitespace c then words [] s else words (c ∷ []) s
words (b ∷ w) (c ∷ s) =
    let next = (b ∷ w) ∷ words [] s in if is_whitespace c then next else words ((b ∷ w) ++ c ∷ []) s

abbrev unwords : List Text → Text
unwords [] = []
unwords (w ∷ []) = w
unwords (w ∷ v ∷ ws) = w ++ codes " " ++ unwords (v ∷ ws)

-- What `keys.rs` calls of other crates and of the file system.
pub record KeyCrates : Type 0 where
  pub parse_b256 : Text → Option Bytes
  pub is_file : Text → Bool
  pub read_file : Text → Result Text Text
  pub mnemonic_seed : Text → Text → Result Text Bytes
  pub master_key : Bytes → Result Text Bytes
  pub parse_path : Text → Result Text Text
  pub derive_path : Bytes → Text → Result Text Bytes
  pub child_number : ℕ → Result Text ℕ
  pub derive_child : Bytes → ℕ → Result Text Bytes
  pub decrypt_keystore : Text → Text → Result Text Bytes
  pub address : Bytes → KaspaNetworkType → Result Text Text
  pub join_path : Text → Text → Text

abbrev context : {A : Type 0} → Text → Result Text A → Result Text A
context message (ok a) = ok a
context message (err e) = err (codes "IGRA key resolution error: " ++ message ++ e)

module _ (crates : KeyCrates) where
  unfoldable pub kaspa_address_from_private_key : Bytes → KaspaNetworkType → Result Text Text
  kaspa_address_from_private_key private_key prefix =
      context (codes "invalid private key bytes: ") (crates.address private_key prefix)

  parse_private_key_hex : Text → Result Text Bytes
  parse_private_key_hex private_key =
      ok_or (crates.parse_b256 (trim private_key))
        (igra_key_resolution_error ++ codes ": provided --private-key-kaspa value is invalid hex")

  phrase_of : Text → Result Text Text
  unfolding words
  phrase_of mnemonic = do
    phrase ←
        (if crates.is_file mnemonic
          then context (codes "failed to read mnemonic file: ") (crates.read_file mnemonic)
          else ok mnemonic)
    ok (unwords (words [] phrase))

  derive : Bytes → Option Text → ℕ → Result Text Bytes
  derive xprv (some path) index = do
    parsed ← context (codes "invalid Kaspa derivation path: ") (crates.parse_path path)
    context (codes "failed to derive Kaspa key by path: ") (crates.derive_path xprv parsed)
  derive xprv none index = do
    parsed ←
        context (codes "failed to parse default Kaspa derivation path: ")
          (crates.parse_path (codes "m/44'/111111'/0'/0"))
    base ←
        context (codes "failed to derive default Kaspa base key: ") (crates.derive_path xprv parsed)
    child ← context (codes "invalid Kaspa mnemonic index: ") (crates.child_number index)
    context (codes "failed to derive Kaspa key by index: ") (crates.derive_child base child)

  resolve_mnemonic_private_key : Text → Option Text → Option Text → ℕ → Result Text Bytes
  unfolding phrase_of derive
  resolve_mnemonic_private_key mnemonic passphrase derivation_path index = do
    phrase ← phrase_of mnemonic
    seed ←
        context (codes "invalid Kaspa mnemonic: ")
          (crates.mnemonic_seed phrase (unwrap_or passphrase []))
    xprv ←
        context (codes "failed to derive Kaspa master key from mnemonic seed: ")
          (crates.master_key seed)
    derive xprv derivation_path index

  unfoldable pub resolve_keystore_path : IgraKaspaWalletConfig → Option Text → Result Text Text
  resolve_keystore_path config keystores_dir = elim config.keystore [
    | some path ↦ ok path
    | none ↦ elim config.keystore_account [
      | some account ↦ do
        dir ← ok_or keystores_dir (
            codes "IGRA key resolution error: could not resolve default foundry keystore directory")
        ok (crates.join_path dir account)
      | none ↦ err (codes "IGRA key resolution error: kaspa keystore path or account is required")
    ]
  ]

  unfoldable pub resolve_keystore_private_key :
      IgraKaspaWalletConfig → Option Text → Result Text Bytes
  unfolding resolve_keystore_path
  resolve_keystore_private_key config keystores_dir = do
    path ← resolve_keystore_path config keystores_dir
    password ← ok_or config.password (
        codes
          "IGRA key resolution error: kaspa keystore password is required; set --password-kaspa or KASPA_PASSWORD")
    context (codes "failed to decrypt kaspa keystore: ") (crates.decrypt_keystore path password)

  unfoldable pub resolve_kaspa_private_key : IgraKaspaWalletConfig → Option Text → Result Text Bytes
  unfolding parse_private_key_hex resolve_mnemonic_private_key resolve_keystore_private_key
  resolve_kaspa_private_key config keystores_dir = elim config.private_key [
    | some private_key ↦ parse_private_key_hex private_key
    | none ↦ elim config.mnemonic [
      | some mnemonic ↦
          resolve_mnemonic_private_key mnemonic config.mnemonic_passphrase
            config.mnemonic_derivation_path (unwrap_or config.mnemonic_index 0)
      | none ↦
          if is_some config.keystore || is_some config.keystore_account
          then resolve_keystore_private_key config keystores_dir
          else err igra_key_resolution_error
    ]
  ]
