-- ===== src/Payload/Select/Fewest.antt =====
-- crates/igra/src/payload.rs: the inputs that are chosen against every other choice.
use igra_foundry_sdk.Prelude.{
  ℕ, zero, suc, ◌+◌, ◌-◌, ◌≤◌, ◌<◌, ◌≡◌, refl, true, List, [], ◌∷◌, length, take, ok, length-append,
  arith, Bool-cases, inl, inr,
}
use igra_foundry_sdk.Prelude.Text.{Text}
use igra_foundry_sdk.Prelude.Words.{u64_max, saturating_add}
use igra_foundry_sdk.Payload.Fee.{min_change_sompi, estimated_fee_sompi, estimated_fee_mono}
use igra_foundry_sdk.Payload.Select.{
  Utxo, sort_largest, Selection, add_utxo, is_enough, required, select_loop, nothing_selected,
  funding,
}
use igra_foundry_sdk.Payload.Select.Funded.{
  sum_amounts, sum-append, add_all, IsTotal, add_utxo-IsTotal,
}
use igra_foundry_sdk.Payload.Select.Front.{
  IsChoice, front_largest, length-sort_largest, no_more_utxos,
}

length-take : (k : ℕ) (us : List Utxo) → length (take k us) ≤ k
length-take zero us = omega arith
length-take (suc k) [] = omega arith
length-take (suc k) (u ∷ us) = omega (arith, length-take k us)

add_all-IsTotal : (s : Selection) (us : List Utxo) → IsTotal s → IsTotal (add_all s us)
add_all-IsTotal s [] h = h
add_all-IsTotal s (u ∷ us) h = add_all-IsTotal (add_utxo s u) us (add_utxo-IsTotal s u h)

length-add_utxo :
    (s : Selection) (u : Utxo) → length (add_utxo s u).selected ≡ length s.selected + 1
unfolding add_utxo
length-add_utxo s u = length-append s.selected (u ∷ [])

length-add_all :
    (s : Selection) (us : List Utxo)
    → length (add_all s us).selected ≡ length s.selected + length us
length-add_all s [] = omega arith
length-add_all s (u ∷ us) = omega (arith, length-add_all (add_utxo s u) us, length-add_utxo s u)

sum-add_all :
    (s : Selection) (us : List Utxo)
    → sum_amounts (add_all s us).selected ≡ sum_amounts s.selected + sum_amounts us
unfolding add_utxo
sum-add_all s [] = omega arith
sum-add_all s (u ∷ us) =
    omega (arith, sum-add_all (add_utxo s u) us, sum-append s.selected (u ∷ []))

-- The loop ends at the latest with a front that is enough.
select_loop_least :
    (payload_len : ℕ) (us : List Utxo) (s : Selection) (k : ℕ)
    → 0 < k
    → k ≤ length us
    → is_enough payload_len (add_all s (take k us)) ≡ true
    → (is_enough payload_len (select_loop payload_len us s) ≡ true)
      × (length (select_loop payload_len us s).selected ≤ length s.selected + k)
unfolding select_loop
select_loop_least payload_len us s zero h fits e = absurd (omega arith)
select_loop_least payload_len [] s (suc k) h fits e = absurd (omega arith)
select_loop_least payload_len (u ∷ us) s (suc zero) h fits e =
    rw e (e, omega (arith, length-add_utxo s u))
select_loop_least payload_len (u ∷ us) s (suc (suc k)) h fits e =
    elim (Bool-cases (is_enough payload_len (add_utxo s u))) [
      | inl enough ↦ rw enough (enough, omega (arith, length-add_utxo s u))
      | inr more ↦
          let (reached, le) =
            select_loop_least payload_len us (add_utxo s u) (suc k) (omega arith) (omega arith) e in
          rw more (reached, omega (arith, length-add_utxo s u))
    ]

-- The front as long as a choice that can pay is enough.
front-is_enough :
    (payload_len : ℕ) (us vs : List Utxo)
    → IsChoice us vs
    → estimated_fee_sompi payload_len (length vs) + min_change_sompi ≤ sum_amounts vs
    → sum_amounts vs ≤ u64_max
    → is_enough payload_len (add_all nothing_selected (take (length vs) (sort_largest us))) ≡ true
unfolding is_enough required saturating_add
front-is_enough payload_len us vs c pays fits =
    let chosen = take (length vs) (sort_largest us) in
    let all = add_all nothing_selected chosen in
    let shorter = length-take (length vs) (sort_largest us) in
    let counted = length-add_all nothing_selected chosen in
    let fewer : length all.selected ≤ length vs = omega (arith, shorter, counted) in
    ground (
      arith,
      add_all-IsTotal nothing_selected chosen refl,
      sum-add_all nothing_selected chosen,
      front_largest c,
      estimated_fee_mono payload_len payload_len (length all.selected) (length vs) (omega arith)
          fewer,
    )

-- When some choice of the UTXOs holds its own fee and the minimum change, and no more than a u64, the
-- funding succeeds, and with no more inputs than that choice has.
pub funding_fewest :
    (payload_len : ℕ) (source : Text) (us vs : List Utxo)
    → IsChoice us vs
    → 0 < length vs
    → estimated_fee_sompi payload_len (length vs) + min_change_sompi ≤ sum_amounts vs
    → sum_amounts vs ≤ u64_max
    → (s : Selection) × ((output : ℕ) × ((funding payload_len source us ≡ ok (s, output))
          × (length s.selected ≤ length vs)))
unfolding funding is_enough required saturating_add
funding_fewest payload_len source us vs c some_input pays fits =
    let s = select_loop payload_len (sort_largest us) nothing_selected in
    let fee = estimated_fee_sompi payload_len (length s.selected) in
    let (reached, counted) =
      select_loop_least payload_len (sort_largest us) nothing_selected (length vs) some_input
        (omega (arith, length-sort_largest us, no_more_utxos c))
        (front-is_enough payload_len us vs c pays fits) in
    let fewer : length s.selected ≤ length vs = omega (arith, counted) in
    (
      s,
      (
        s.total_input - fee,
        (
          ground (
            arith,
            reached,
            estimated_fee_mono payload_len payload_len (length s.selected) (length vs) (omega arith)
                fewer,
          ),
          fewer,
        ),
      ),
    )
