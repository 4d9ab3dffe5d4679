-- ===== src/Payload/Select.antt =====
-- crates/igra/src/payload.rs: the choice of UTXOs in `mine_and_build_signed_payload_transaction`.
pub mod Funded
pub mod Front
pub mod Fewest
use igra_foundry_sdk.Prelude.{
  ℕ, ◌-◌, Bool, List, [], ◌∷◌, ◌++◌, Result, ok, err, ltb, leb, if◌then◌else◌, length,
}
use igra_foundry_sdk.Prelude.Text.{Text, codes}
use igra_foundry_sdk.Prelude.Words.{saturating_add}
use igra_foundry_sdk.Payload.Fee.{estimated_fee_sompi, min_change_sompi}

-- `RpcUtxosByAddressesEntry`: the fields that the program reads.
pub record Utxo : Type 0 where
  pub outpoint : Text
  pub amount : ℕ
  pub script_public_key : Text
  pub block_daa_score : ℕ
  pub is_coinbase : Bool

-- `sort_by_key(|entry| Reverse(amount))` is stable.
pub insert_largest : Utxo → List Utxo → List Utxo
insert_largest u [] = u ∷ []
insert_largest u (v ∷ us) = if leb v.amount u.amount then u ∷ v ∷ us else v ∷ insert_largest u us

pub sort_largest : List Utxo → List Utxo
unfolding insert_largest
sort_largest [] = []
sort_largest (u ∷ us) = insert_largest u (sort_largest us)

pub required : ℕ → ℕ → ℕ
required payload_len inputs =
    saturating_add (estimated_fee_sompi payload_len inputs) min_change_sompi

pub record Selection : Type 0 where
  pub selected : List Utxo
  pub total_input : ℕ

pub add_utxo : Selection → Utxo → Selection
add_utxo s u = record {
  selected = s.selected ++ u ∷ [];
  total_input = saturating_add s.total_input u.amount;
}

pub is_enough : ℕ → Selection → Bool
unfolding required
is_enough payload_len s = leb (required payload_len (length s.selected)) s.total_input

-- `for entry in sorted { ...; if total_input >= ... { break; } }`
pub select_loop : ℕ → List Utxo → Selection → Selection
unfolding is_enough add_utxo
select_loop payload_len [] s = s
select_loop payload_len (u ∷ us) s =
    let rest = select_loop payload_len us (add_utxo s u) in
    if is_enough payload_len (add_utxo s u) then add_utxo s u else rest

abbrev pub nothing_selected : Selection
nothing_selected = record { selected = []; total_input = 0 }

pub insufficient_utxos : Text → Text
insufficient_utxos source_address =
    codes "IGRA submit error: insufficient Kaspa UTXOs for fee payment (source address: "
    ++ source_address
    ++ codes ")"

-- The selection, with the output that is left after the fee, or the error.
unfoldable pub funding : ℕ → Text → List Utxo → Result Text (Selection × ℕ)
unfolding sort_largest select_loop required insufficient_utxos
funding payload_len source_address utxos =
    let s = select_loop payload_len (sort_largest utxos) nothing_selected in
    let fee = estimated_fee_sompi payload_len (length s.selected) in
    if ltb s.total_input (saturating_add fee min_change_sompi)
    then err (insufficient_utxos source_address)
    else if ltb (s.total_input - fee) min_change_sompi
    then err (insufficient_utxos source_address)
    else ok (s, s.total_input - fee)
