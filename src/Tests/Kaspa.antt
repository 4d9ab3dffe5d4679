-- ===== src/Tests/Kaspa.antt =====
-- crates/igra/src/payload.rs: a payload, a choice of inputs and a mined transaction.
use igra_foundry_sdk.Prelude.{
  ℕ, ◌+◌, ◌-◌, ◌*◌, ◌≤◌, ◌≡◌, refl, false, some, [], ◌∷◌, Result, ok, arith, length, take, drop,
}
use igra_foundry_sdk.Prelude.Text.{Text, codes, starts_with}
use igra_foundry_sdk.Prelude.Words.{u64_max, saturating_add, saturating_mul}
use igra_foundry_sdk.Payload.Fee.{kib, estimated_fee_sompi, min_change_sompi, estimated_fee_exact}
use igra_foundry_sdk.Payload.Format.{
  Bytes, from_be_bytes, build_payload_with_nonce, set_nonce, payload_roundtrip,
  set_nonce-build_payload,
}
use igra_foundry_sdk.Payload.Select.{Utxo, Selection, funding}
use igra_foundry_sdk.Payload.Select.Funded.{sum_amounts, funding_lem}
use igra_foundry_sdk.Payload.Select.Front.{none_left, taken, left}
use igra_foundry_sdk.Payload.Select.Fewest.{funding_fewest}
use igra_foundry_sdk.Payload.Mine.{KaspaTransaction, mine_loop}
use igra_foundry_sdk.Payload.Mine.Mined.{mine_loop_ends}
use igra_foundry_sdk.Payload.Build.{Kaspa, mine_and_build_signed_payload_transaction}
use igra_foundry_sdk.Payload.Build.Checked.{Signs, IsBuilt, built_lem}

abbrev pair : Bytes
pair = 1 ∷ 2 ∷ []

payload_roundtrip_example :
    let payload = build_payload_with_nonce 0x94 pair 0x01020304 in
    (length payload ≡ length pair + 5)
    × (take 1 payload ≡ 0x94 ∷ [])
    × (take (length payload - 5) (drop 1 payload) ≡ pair)
    × (from_be_bytes (drop (length payload - 4) payload) ≡ 0x01020304)
payload_roundtrip_example = payload_roundtrip 0x94 pair 0x01020304 (omega arith)

set_nonce-build_payload_example :
    set_nonce (build_payload_with_nonce 0x94 pair 5) 6 ≡ build_payload_with_nonce 0x94 pair 6
set_nonce-build_payload_example = set_nonce-build_payload 0x94 pair 5 6

estimated_fee_exact_example : estimated_fee_sompi 2_000 3 ≡ 200_000 + 2 * 20_000 + (3 - 1) * 10_000
estimated_fee_exact_example =
    estimated_fee_exact 2_000 3 2 (omega arith) (omega arith) (omega arith) (omega arith)

abbrev pub coin : Utxo
coin = record {
  outpoint = codes "tx:0";
  amount = 1_000_000;
  script_public_key = codes "script";
  block_daa_score = 1;
  is_coinbase = false;
}

abbrev small_coin : Utxo
small_coin = record coin { outpoint = codes "tx:1"; amount = 150_000 }

abbrev chosen : Selection
chosen = record { selected = coin ∷ []; total_input = 1_000_000 }

-- The larger coin alone is enough.
funds : funding 6 (codes "addr") (small_coin ∷ coin ∷ []) ≡ ok (chosen, 780_000)
unfolding funding saturating_add estimated_fee_sompi
funds = refl

chosen_fee : estimated_fee_sompi 6 1 + min_change_sompi ≤ u64_max
unfolding estimated_fee_sompi kib saturating_add saturating_mul
chosen_fee = omega arith

funding_lem_example :
    (sum_amounts chosen.selected ≡ 780_000 + estimated_fee_sompi 6 (length chosen.selected))
    × (min_change_sompi ≤ 780_000)
funding_lem_example =
    funding_lem 6 (codes "addr") (small_coin ∷ coin ∷ []) chosen 780_000 funds chosen_fee
      (omega arith)

coin_pays : estimated_fee_sompi 6 1 + min_change_sompi ≤ 1_000_000
unfolding estimated_fee_sompi kib saturating_add saturating_mul
coin_pays = omega arith

funding_fewest_example :
    (s : Selection) × ((output : ℕ) × ((funding 6 (codes "addr") (small_coin ∷ coin ∷ [])
          ≡ ok (s, output))
        × (length s.selected ≤ 1)))
funding_fewest_example =
    funding_fewest 6 (codes "addr") (small_coin ∷ coin ∷ []) (coin ∷ [])
      (left small_coin (taken coin none_left)) (omega arith) coin_pays (omega arith)

-- Crates whose id of a transaction is the last byte of a payload of six bytes.
abbrev pub crates : Kaspa
crates = record {
  tx_id = λ tx. drop 5 tx.payload;
  pay_to_address_script = λ address. address;
  sign = λ key tx us. ok tx;
  verify = λ tx us. ok tt;
  non_contextual_mass = λ tx. 2000;
  contextual_mass = λ tx us. some 3000;
}

pub crates-Signs : Signs crates
crates-Signs = record { keeps = λ key tx signed us e. (cc, cc, cc); mass_free = λ tx m. refl }

abbrev built : KaspaTransaction
built = record {
  inputs = codes "tx:0" ∷ [];
  outputs = record { value = 780_000; script_public_key = codes "addr" } ∷ [];
  payload = 0x94 ∷ 7 ∷ 0 ∷ 0 ∷ 0 ∷ 2 ∷ [];
  mass = 3000;
}

-- The third nonce gives the id 2.
builds :
    mine_and_build_signed_payload_transaction 3 crates []
      (codes "addr")
      0x94
      (7 ∷ [])
      (2 ∷ [])
      (λ i. i)
      100
      (small_coin ∷ coin ∷ [])
    ≡ some (ok (2, built))
unfolding mine_and_build_signed_payload_transaction funding saturating_add estimated_fee_sompi
    mine_loop starts_with set_nonce build_payload_with_nonce
builds = refl

built_lem_example :
    IsBuilt crates crates-Signs
      (2 ∷ [])
      []
      (codes "addr")
      0x94
      (7 ∷ [])
      (small_coin ∷ coin ∷ [])
      2
      built
built_lem_example =
    built_lem crates crates-Signs (2 ∷ []) 3 [] (codes "addr") 0x94 (7 ∷ []) (λ i. i) 100
      (small_coin ∷ coin ∷ []) 2 built builds

mine_loop_ends_example :
    (r : Result Text (ℕ × KaspaTransaction)) × (mine_loop crates.tx_id
        (9 ∷ [])
        (λ i. i)
        2
        4
        0
        0
        built
      ≡ some r)
mine_loop_ends_example =
    mine_loop_ends crates.tx_id (9 ∷ []) (λ i. i) 2 4 0 3 0 built (omega arith) (omega arith)
      (omega arith)
