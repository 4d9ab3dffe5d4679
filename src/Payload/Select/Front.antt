-- ===== src/Payload/Select/Front.antt =====
-- crates/igra/src/payload.rs: the fronts of the sorted UTXOs against every other choice of them.
use igra_foundry_sdk.Prelude.{
  ℕ, zero, suc, ◌+◌, ◌≤◌, ◌≡◌, refl, List, [], ◌∷◌, leb, length, take, arith, Bool-cases, inl, inr,
}
use igra_foundry_sdk.Payload.Select.{Utxo, insert_largest, sort_largest}
use igra_foundry_sdk.Payload.Select.Funded.{sum_amounts}

-- A choice of UTXOs: some are taken, the others are left.
pub data IsChoice : List Utxo → List Utxo → Type 0 where
  none_left : IsChoice [] []
  taken : {us vs : List Utxo} → (u : Utxo) → IsChoice us vs → IsChoice (u ∷ us) (u ∷ vs)
  left : {us vs : List Utxo} → (u : Utxo) → IsChoice us vs → IsChoice (u ∷ us) vs

AllUpTo : ℕ → List Utxo → Type 0
AllUpTo b [] = Unit
AllUpTo b (u ∷ us) = (u.amount ≤ b) × AllUpTo b us

IsDescending : List Utxo → Type 0
unfolding AllUpTo
IsDescending [] = Unit
IsDescending (u ∷ us) = AllUpTo u.amount us × IsDescending us

up_to_more : (b c : ℕ) (us : List Utxo) → b ≤ c → AllUpTo b us → AllUpTo c us
unfolding AllUpTo
up_to_more b c [] h all = tt
up_to_more b c (u ∷ us) h (le, all) = (omega arith, up_to_more b c us h all)

up_to-insert_largest :
    (b : ℕ) (u : Utxo) (us : List Utxo)
    → u.amount ≤ b
    → AllUpTo b us
    → AllUpTo b (insert_largest u us)
unfolding AllUpTo insert_largest
up_to-insert_largest b u [] h all = (h, tt)
up_to-insert_largest b u (v ∷ us) h (le, all) = elim (Bool-cases (leb v.amount u.amount)) [
  | inl first ↦ rw first (h, (le, all))
  | inr later ↦ rw later (le, up_to-insert_largest b u us h all)
]

insert_largest-IsDescending :
    (u : Utxo) (us : List Utxo) → IsDescending us → IsDescending (insert_largest u us)
unfolding IsDescending AllUpTo insert_largest
insert_largest-IsDescending u [] d = (tt, tt)
insert_largest-IsDescending u (v ∷ us) (all, d) = elim (Bool-cases (leb v.amount u.amount)) [
  | inl first ↦
      rw first ((ground arith, up_to_more v.amount u.amount us (ground arith) all), (all, d))
  | inr later ↦
      rw later
        (up_to-insert_largest v.amount u us (ground arith) all, insert_largest-IsDescending u us d)
]

sort_largest-IsDescending : (us : List Utxo) → IsDescending (sort_largest us)
unfolding IsDescending sort_largest
sort_largest-IsDescending [] = tt
sort_largest-IsDescending (u ∷ us) =
    insert_largest-IsDescending u (sort_largest us) (sort_largest-IsDescending us)

abbrev front : ℕ → List Utxo → ℕ
front k us = sum_amounts (take k us)

front-suc : (b k : ℕ) (us : List Utxo) → AllUpTo b us → front (suc k) us ≤ b + front k us
unfolding AllUpTo
front-suc b k [] all = omega arith
front-suc b zero (u ∷ us) (le, all) = omega arith
front-suc b (suc k) (u ∷ us) (le, all) = omega (arith, front-suc b k us all)

-- One more UTXO makes no front smaller.
front-left :
    (u : Utxo) (k : ℕ) (us : List Utxo)
    → IsDescending us
    → front k us ≤ front k (insert_largest u us)
unfolding IsDescending insert_largest
front-left u zero us d = omega arith
front-left u (suc k) [] d = omega arith
front-left u (suc k) (v ∷ us) (all, d) = elim (Bool-cases (leb v.amount u.amount)) [
  | inl first ↦
      let fits : v.amount ≤ u.amount = ground arith in
      rw first (front-suc u.amount k (v ∷ us) (fits, up_to_more v.amount u.amount us fits all))
  | inr later ↦ rw later (omega (arith, front-left u k us d))
]

-- A front with one place more has room for it.
front-taken :
    (u : Utxo) (k : ℕ) (us : List Utxo)
    → u.amount + front k us ≤ front (suc k) (insert_largest u us)
unfolding insert_largest
front-taken u zero [] = omega arith
front-taken u (suc k) [] = omega arith
front-taken u zero (v ∷ us) = elim (Bool-cases (leb v.amount u.amount)) [
  | inl first ↦ rw first (omega arith)
  | inr later ↦ rw later (ground arith)
]
front-taken u (suc k) (v ∷ us) = elim (Bool-cases (leb v.amount u.amount)) [
  | inl first ↦ rw first (omega arith)
  | inr later ↦ rw later (omega (arith, front-taken u k us))
]

-- No choice holds more than the front of its length.
pub front_largest :
    {us vs : List Utxo} → IsChoice us vs → sum_amounts vs ≤ front (length vs) (sort_largest us)
unfolding sort_largest
front_largest none_left = omega arith
front_largest (taken {us} {vs} u c) =
    omega (arith, front_largest c, front-taken u (length vs) (sort_largest us))
front_largest (left {us} {vs} u c) = omega (
  arith,
  front_largest c,
  front-left u (length vs) (sort_largest us) (sort_largest-IsDescending us),
)

length-insert_largest : (u : Utxo) (us : List Utxo) → length (insert_largest u us) ≡ length us + 1
unfolding insert_largest
length-insert_largest u [] = omega arith
length-insert_largest u (v ∷ us) = elim (Bool-cases (leb v.amount u.amount)) [
  | inl first ↦ rw first (omega arith)
  | inr later ↦ rw later (omega (arith, length-insert_largest u us))
]

pub length-sort_largest : (us : List Utxo) → length (sort_largest us) ≡ length us
unfolding sort_largest
length-sort_largest [] = refl
length-sort_largest (u ∷ us) =
    omega (arith, length-sort_largest us, length-insert_largest u (sort_largest us))

pub no_more_utxos : {us vs : List Utxo} → IsChoice us vs → length vs ≤ length us
no_more_utxos none_left = omega arith
no_more_utxos (taken u c) = omega (arith, no_more_utxos c)
no_more_utxos (left u c) = omega (arith, no_more_utxos c)
