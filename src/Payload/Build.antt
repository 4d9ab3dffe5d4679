-- ===== src/Payload/Build.antt =====
-- crates/igra/src/payload.rs: `mine_and_build_signed_payload_transaction`. Signing, ids, scripts
-- and masses are those of the Kaspa crates, as parameters.
pub mod Checked
use igra_foundry_sdk.Prelude.{
  ℕ, ◌+◌, Bool, true, false, not, Option, none, some, List, [], ◌∷◌, ◌++◌, Result, ok, err, ◌>>=◌,
  ◌>>◌, ensure, ok_or, map, max, leb, length,
}
use igra_foundry_sdk.Prelude.Text.{Text, codes, decimal, starts_with}
use igra_foundry_sdk.Payload.Fee.{max_standard_kaspa_tx_mass}
use igra_foundry_sdk.Payload.Format.{Bytes, build_payload_with_nonce}
use igra_foundry_sdk.Payload.Select.{Utxo, Selection, funding, insufficient_utxos}
use igra_foundry_sdk.Payload.Mine.{KaspaTransaction, mine_loop}

pub record Kaspa : Type 0 where
  pub tx_id : KaspaTransaction → Bytes
  pub pay_to_address_script : Text → Text
  -- `sign_with_multiple_v2(..).fully_signed()`, then `verify`.
  pub sign : Bytes → KaspaTransaction → List Utxo → Result Text KaspaTransaction
  pub verify : KaspaTransaction → List Utxo → Result Text (Unit {0})
  -- `calc_non_contextual_masses` and `calc_contextual_masses`, each as its maximum.
  pub non_contextual_mass : KaspaTransaction → ℕ
  pub contextual_mass : KaspaTransaction → List Utxo → Option ℕ

abbrev is_empty : {A : Type 0} → List A → Bool
is_empty [] = true
is_empty (x ∷ xs) = false

abbrev pub prefixed : {A : Type 0} → Text → Result Text A → Result Text A
prefixed message (ok a) = ok a
prefixed message (err e) = err (message ++ e)

pub unsigned : Kaspa → Text → ℕ → Bytes → Selection × ℕ → KaspaTransaction
unsigned kaspa source_address header l2data (s, output_value) = record {
  inputs = map (λ (u : Utxo). u.outpoint) s.selected;
  outputs =
      record {
        value = output_value;
        script_public_key = kaspa.pay_to_address_script source_address;
      }
      ∷ [];
  payload = build_payload_with_nonce header l2data 0;
  mass = 0;
}

-- The checks of a signed transaction, and its mass.
pub check_signed :
    Kaspa → Bytes → List Utxo → ℕ → KaspaTransaction → Result Text (ℕ × KaspaTransaction)
check_signed kaspa prefix selected nonce signed = do
  prefixed (codes "IGRA submit error: invalid Kaspa signature set: ") (kaspa.verify signed selected)
  ensure (starts_with (kaspa.tx_id signed) prefix) (
      codes
        "IGRA submit error: mined Kaspa txid prefix changed after signing; refusing to broadcast")
  contextual ←
      ok_or (kaspa.contextual_mass signed selected)
        (codes "IGRA submit error: failed to calculate Kaspa tx storage mass")
  let mass = max contextual (kaspa.non_contextual_mass signed)
  ensure (leb mass max_standard_kaspa_tx_mass) (
      codes "IGRA submit error: Kaspa transaction mass "
      ++ decimal mass
      ++ codes " exceeds standard limit "
      ++ decimal max_standard_kaspa_tx_mass)
  ok (nonce, record signed { mass = mass })

-- From the mined transaction to the one that is broadcast.
pub sign_and_check :
    Kaspa → Bytes → Bytes → List Utxo → ℕ × KaspaTransaction → Result Text (ℕ × KaspaTransaction)
unfolding check_signed
sign_and_check kaspa private_key prefix selected (nonce, tx) = do
  signed ←
      prefixed (codes "IGRA submit error: failed to sign Kaspa tx: ")
        (kaspa.sign private_key tx selected)
  check_signed kaspa prefix selected nonce signed

-- What mining gives, checked; `none` stays `none`.
unfoldable pub finish :
    Kaspa
    → Bytes
    → Bytes
    → List Utxo
    → Option (Result Text (ℕ × KaspaTransaction))
    → Option (Result Text (ℕ × KaspaTransaction))
unfolding sign_and_check
finish kaspa private_key prefix selected none = none
finish kaspa private_key prefix selected (some r) =
    some (r >>= sign_and_check kaspa private_key prefix selected)

unfoldable pub mine_funded :
    ℕ
    → Kaspa
    → Bytes
    → Text
    → ℕ
    → Bytes
    → Bytes
    → (ℕ → ℕ)
    → ℕ
    → Result Text (Selection × ℕ)
    → Option (Result Text (ℕ × KaspaTransaction))
unfolding finish unsigned
mine_funded fuel kaspa private_key source_address header l2data prefix elapsed timeout_ns (err e) =
    some (err e)
mine_funded fuel kaspa private_key source_address header l2data prefix elapsed timeout_ns
      (ok funded) =
    finish kaspa private_key prefix (funded.0).selected (
      mine_loop kaspa.tx_id prefix elapsed timeout_ns fuel 0 0
        (unsigned kaspa source_address header l2data funded))

-- The checks that return at once.
unfoldable pub unless_refused :
    {A : Type 0} → Result Text (Unit {0}) → Option (Result Text A) → Option (Result Text A)
unless_refused (err e) rest = some (err e)
unless_refused (ok _) rest = rest

unfoldable pub mine_and_build_signed_payload_transaction :
    ℕ
    → Kaspa
    → Bytes
    → Text
    → ℕ
    → Bytes
    → Bytes
    → (ℕ → ℕ)
    → ℕ
    → List Utxo
    → Option (Result Text (ℕ × KaspaTransaction))
unfolding mine_funded unless_refused
mine_and_build_signed_payload_transaction fuel kaspa private_key source_address header l2data prefix
      elapsed timeout_ns utxos =
    unless_refused
      (ensure (not (is_empty utxos)) (insufficient_utxos source_address)
        >> ensure (not (is_empty prefix))
            (codes "IGRA config error: `tx_id_prefix` cannot be empty"))
      (mine_funded fuel kaspa private_key source_address header l2data prefix elapsed timeout_ns
        (funding (1 + length l2data + 4) source_address utxos))
