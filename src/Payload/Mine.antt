-- ===== src/Payload/Mine.antt =====
-- crates/igra/src/payload.rs: the mining loop of `mine_and_build_signed_payload_transaction`.
pub mod Mined
use igra_foundry_sdk.Prelude.{
  ℕ, zero, suc, ◌+◌, ◌-◌, ◌/◌, ◌%◌, ◌^◌, Bool, true, false, Option, none, some, List, [], ◌∷◌, ◌++◌,
  Result, ok, err, ltb,
}
use igra_foundry_sdk.Prelude.Text.{Text, codes, decimal, starts_with}
use igra_foundry_sdk.Payload.Format.{Bytes, set_nonce}

-- `KaspaTransaction`: the fields that the program sets. The version, the lock time, the gas and the
-- subnetwork are always the same.
pub record KaspaOutput : Type 0 where
  pub value : ℕ
  pub script_public_key : Text

pub record KaspaTransaction : Type 0 where
  pub inputs : List Text
  pub outputs : List KaspaOutput
  pub payload : Bytes
  pub mass : ℕ

abbrev pub igra_mining_timeout_error_code : Text
igra_mining_timeout_error_code = codes "IGRA_MINING_001"

mining_timeout_message : ℕ → Text
mining_timeout_message timeout_ms =
    igra_mining_timeout_error_code
    ++ codes ": timed out mining kaspa txid prefix after "
    ++ decimal timeout_ms
    ++ codes "ms"

pub with_nonce : KaspaTransaction → ℕ → KaspaTransaction
with_nonce tx nonce = record tx { payload = set_nonce tx.payload nonce }

-- `if let Some(first) = tx.outputs.first_mut() { first.value = first.value.saturating_sub(1); }`
pub lower_first : List KaspaOutput → List KaspaOutput
lower_first [] = []
lower_first (o ∷ os) = record o { value = o.value - 1 } ∷ os

-- `nonce.wrapping_add(1)`, and one sompi less for the output after a wrap.
pub next_nonce : ℕ → ℕ
next_nonce nonce = (nonce + 1) % 2 ^ 32

pub after_wrap : ℕ → KaspaTransaction → KaspaTransaction
unfolding lower_first
after_wrap zero tx = record tx { outputs = lower_first tx.outputs }
after_wrap (suc n) tx = tx

-- One round: whether the time is over, whether the id has the prefix, and the rest of the loop.
pub mine_round :
    Bool
    → Bool
    → ℕ
    → ℕ
    → KaspaTransaction
    → (KaspaTransaction → Option (Result Text (ℕ × KaspaTransaction)))
    → Option (Result Text (ℕ × KaspaTransaction))
unfolding mining_timeout_message
mine_round true found timeout_ns nonce tx again =
    some (err (mining_timeout_message (timeout_ns / 1_000_000)))
mine_round false true timeout_ns nonce tx again = some (ok (nonce, tx))
mine_round false false timeout_ns nonce tx again = again tx

-- `tx_id` is the id of a finalized transaction, `elapsed i` the clock in round i in nanoseconds.
-- `none` means that the fuel ran out.
module _ (tx_id : KaspaTransaction → Bytes) (prefix : Bytes) (elapsed : ℕ → ℕ)
    (timeout_ns : ℕ) where
  unfoldable pub mine_loop :
      ℕ → ℕ → ℕ → KaspaTransaction → Option (Result Text (ℕ × KaspaTransaction))
  unfolding with_nonce next_nonce after_wrap mine_round
  mine_loop zero i nonce tx = none
  mine_loop (suc fuel) i nonce tx =
      mine_round (ltb timeout_ns (elapsed i)) (starts_with (tx_id (with_nonce tx nonce)) prefix)
        timeout_ns nonce (with_nonce tx nonce)
        (λ tx'. mine_loop fuel (i + 1) (next_nonce nonce) (after_wrap (next_nonce nonce) tx'))
