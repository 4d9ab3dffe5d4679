-- ===== src/Payload/Select/Funded.antt =====
-- crates/igra/src/payload.rs: the inputs that are chosen, the fee and the change.
use igra_foundry_sdk.Prelude.{
  zero, ◌<◌, false, ℕ, suc, ◌+◌, ◌≤◌, ◌≡◌, refl, List, [], ◌∷◌, ◌++◌, ok, arith, length, take,
  Bool-cases, inl, inr, min,
}
use igra_foundry_sdk.Prelude.Text.{Text}
use igra_foundry_sdk.Prelude.Words.{saturating_add, u64_max}
use igra_foundry_sdk.Payload.Fee.{estimated_fee_sompi, min_change_sompi}
use igra_foundry_sdk.Payload.Select.{
  Utxo, sort_largest, Selection, add_utxo, is_enough, select_loop, nothing_selected, funding,
}

abbrev pub sum_amounts : List Utxo → ℕ
sum_amounts [] = 0
sum_amounts (u ∷ us) = u.amount + sum_amounts us

pub sum-append : (us vs : List Utxo) → sum_amounts (us ++ vs) ≡ sum_amounts us + sum_amounts vs
sum-append [] vs = omega arith
sum-append (u ∷ us) vs = omega (arith, sum-append us vs)

-- The total is the sum of what is selected, as far as a `u64` holds it.
abbrev pub IsTotal : Selection → Type 0
IsTotal s = s.total_input ≡ min (sum_amounts s.selected) u64_max

pub add_utxo-IsTotal : (s : Selection) (u : Utxo) → IsTotal s → IsTotal (add_utxo s u)
unfolding add_utxo saturating_add
add_utxo-IsTotal s u h = omega (arith, sum-append s.selected (u ∷ []))

select_loop-IsTotal :
    (payload_len : ℕ) (us : List Utxo) (s : Selection)
    → IsTotal s
    → IsTotal (select_loop payload_len us s)
unfolding select_loop
select_loop-IsTotal payload_len [] s h = h
select_loop-IsTotal payload_len (u ∷ us) s h =
    elim (Bool-cases (is_enough payload_len (add_utxo s u))) [
      | inl enough ↦ rw enough (add_utxo-IsTotal s u h)
      | inr more ↦
          rw more (select_loop-IsTotal payload_len us (add_utxo s u) (add_utxo-IsTotal s u h))
    ]

-- The selection after all of a list.
abbrev pub add_all : Selection → List Utxo → Selection
add_all s [] = s
add_all s (u ∷ us) = add_all (add_utxo s u) us

not_yet :
    (payload_len : ℕ) (u : Utxo) (us : List Utxo) (s : Selection) (k : ℕ)
    → is_enough payload_len (add_utxo s u) ≡ false
    → ((j : ℕ) → 0 < j → j < k → is_enough payload_len (add_all (add_utxo s u) (take j us)) ≡ false)
    → (j : ℕ) → 0 < j
    → j < suc k
    → is_enough payload_len (add_all s (take j (u ∷ us))) ≡ false
not_yet payload_len u us s k more rest zero lo hi = absurd (omega arith)
not_yet payload_len u us s k more rest (suc zero) lo hi = more
not_yet payload_len u us s k more rest (suc (suc j)) lo hi =
    rest (suc j) (omega arith) (omega arith)

-- What is chosen is the first front of the list that is enough.
select_loop-first :
    (payload_len : ℕ) (us : List Utxo) (s : Selection)
    → (k : ℕ) × ((select_loop payload_len us s ≡ add_all s (take k us))
        × ((j : ℕ) → 0 < j → j < k → is_enough payload_len (add_all s (take j us)) ≡ false))
unfolding select_loop
select_loop-first payload_len [] s = (0, (refl, λ j lo hi. absurd (omega arith)))
select_loop-first payload_len (u ∷ us) s =
    elim (Bool-cases (is_enough payload_len (add_utxo s u))) [
      | inl enough ↦ (1, (rw enough, λ j lo hi. absurd (omega arith)))
      | inr more ↦
          let (k, (e, f)) = select_loop-first payload_len us (add_utxo s u) in
          (suc k, (rw more e, not_yet payload_len u us s k more f))
    ]

-- When inputs are found and no u64 is exceeded, they hold exactly the output and the fee, and the
-- output is at least the minimum change.
pub funding_lem :
    (payload_len : ℕ) (source : Text) (utxos : List Utxo) (s : Selection) (output : ℕ)
    → funding payload_len source utxos ≡ ok (s, output)
    → estimated_fee_sompi payload_len (length s.selected) + min_change_sompi ≤ u64_max
    → sum_amounts s.selected ≤ u64_max
    → (sum_amounts s.selected ≡ output + estimated_fee_sompi payload_len (length s.selected))
      × (min_change_sompi ≤ output)
unfolding funding saturating_add
funding_lem payload_len source utxos s output e f t =
    ground (arith, select_loop-IsTotal payload_len (sort_largest utxos) nothing_selected refl)
