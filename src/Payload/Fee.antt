-- ===== src/Payload/Fee.antt =====
-- crates/igra/src/payload.rs: the constants and `estimated_fee_sompi`.
use igra_foundry_sdk.Prelude.{ℕ, ◌+◌, ◌-◌, ◌*◌, ◌/◌, ◌≤◌, ◌<◌, ◌≡◌, min, arith}
use igra_foundry_sdk.Prelude.Words.{saturating_add, saturating_mul, u64_max}

abbrev pub max_standard_kaspa_tx_mass : ℕ
max_standard_kaspa_tx_mass = 100_000

abbrev pub igra_max_l2data_bytes : ℕ
igra_max_l2data_bytes = 24_800

abbrev pub base_submit_fee_sompi : ℕ
base_submit_fee_sompi = 200_000

abbrev pub fee_per_kib_sompi : ℕ
fee_per_kib_sompi = 20_000

abbrev pub extra_input_fee_sompi : ℕ
extra_input_fee_sompi = 10_000

abbrev pub min_change_sompi : ℕ
min_change_sompi = 1_000

-- `u64::div_ceil` by 1024.
unfoldable pub kib : ℕ → ℕ
kib payload_len = (payload_len + 1023) / 1024

unfoldable pub estimated_fee_sompi : ℕ → ℕ → ℕ
unfolding kib saturating_add saturating_mul
estimated_fee_sompi payload_len inputs =
    saturating_add
      (saturating_add base_submit_fee_sompi
        (saturating_mul (kib (min payload_len u64_max)) fee_per_kib_sompi))
      (saturating_mul (min (inputs - 1) u64_max) extra_input_fee_sompi)

-- For payloads and inputs that a transaction can have, and k KiBs of which the last is the first to hold
-- the whole payload, the fee is 200000 sompi, 20000 for each of the k KiBs and 10000 for each
-- input but the first, with no saturation.
pub estimated_fee_exact :
    (payload_len inputs k : ℕ)
    → payload_len ≤ 1024 * k
    → 1024 * k < payload_len + 1024
    → payload_len ≤ igra_max_l2data_bytes + 5
    → inputs ≤ 1_000_000_000
    → estimated_fee_sompi payload_len inputs ≡ 200_000 + k * 20_000 + (inputs - 1) * 10_000
unfolding estimated_fee_sompi kib
estimated_fee_exact payload_len inputs k holds least h i = omega arith

-- The fee never shrinks when the payload or the number of inputs grows, also where it saturates.
pub estimated_fee_mono :
    (payload_len payload_len' inputs inputs' : ℕ)
    → payload_len ≤ payload_len'
    → inputs ≤ inputs'
    → estimated_fee_sompi payload_len inputs ≤ estimated_fee_sompi payload_len' inputs'
unfolding estimated_fee_sompi
estimated_fee_mono payload_len payload_len' inputs inputs' h k = omega arith

estimated_fee_bounds :
    (payload_len inputs : ℕ)
    → (base_submit_fee_sompi ≤ estimated_fee_sompi payload_len inputs)
      × (estimated_fee_sompi payload_len inputs ≤ u64_max)
unfolding estimated_fee_sompi
estimated_fee_bounds payload_len inputs = omega arith
