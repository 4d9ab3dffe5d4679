-- ===== src/Store/Prune/Selection.antt =====
-- crates/igra/src/store.rs: the rows that the query of `enforce_size_budget` selects.
use igra_foundry_sdk.Prelude.{
  ℕ, zero, suc, ◌≡◌, true, none, some, List, [], ◌∷◌, arith, take, keep, All, find, Unique, Table,
  Bool-cases, inl, inr, ap,
}
use igra_foundry_sdk.Prelude.Text.{Text, text_eq, text_eq_iff, text_eq_refl}
use igra_foundry_sdk.Store.Db.{TxRow}
use igra_foundry_sdk.Store.Prune.{insert_by_age, sort_by_age, is_evictable}

-- The rows of a table that a query selects, each under its own key.
abbrev pub Selects : Table TxRow → List (Text × TxRow) → Type 0
Selects m rows = All (λ r. (find r.0 m ≡ some r.1) × (is_evictable r ≡ true)) rows

insert-Selects :
    (m : Table TxRow) (r : Text × TxRow) (rows : List (Text × TxRow))
    → Selects m (r ∷ [])
    → Selects m rows
    → Selects m (insert_by_age r rows)
unfolding insert_by_age
insert-Selects m r [] h hs = h
insert-Selects m r (s ∷ rows) h hs = ground (arith, insert-Selects m r rows h hs.1)

sort-Selects :
    (m : Table TxRow) (rows : List (Text × TxRow)) → Selects m rows → Selects m (sort_by_age rows)
unfolding sort_by_age
sort-Selects m [] hs = tt
sort-Selects m (r ∷ rows) hs =
    insert-Selects m r (sort_by_age rows) (hs.0, tt) (sort-Selects m rows hs.1)

take-Selects :
    (m : Table TxRow) (n : ℕ) (rows : List (Text × TxRow))
    → Selects m rows
    → Selects m (take n rows)
take-Selects m zero rows hs = tt
take-Selects m (suc n) [] hs = tt
take-Selects m (suc n) (r ∷ rows) hs = (hs.0, take-Selects m n rows hs.1)

-- Keys that stand in a longer table with unique keys are found there with the same row.
Selects-cons :
    (k : Text) (v : TxRow) (m : Table TxRow) (rows : List (Text × TxRow))
    → find k m ≡ none
    → Selects m rows
    → Selects ((k, v) ∷ m) rows
unfolding find
Selects-cons k v m [] h hs = tt
Selects-cons k v m (r ∷ rows) h hs = ((found, hs.0.1), Selects-cons k v m rows h hs.1)
  where
    found : find r.0 ((k, v) ∷ m) ≡ some r.1
    found = elim (Bool-cases (text_eq k r.0)) [
      | inl same ↦
          let e : k ≡ r.0 = (text_eq_iff k r.0).0 same in
          absurd (cc (hs.0.0, h, ap (λ j. find j m) e))
      | inr other ↦ rw other hs.0.0
    ]

keep-Selects : (m : Table TxRow) → Unique m → Selects m (keep is_evictable m)
unfolding find
keep-Selects [] u = tt
keep-Selects ((k, v) ∷ m) u =
    ground (arith, text_eq_refl k, keep-Selects m u.1, Selects-cons k v m (keep is_evictable m) u.0)

pub oldest-Selects :
    (m : Table TxRow) → Unique m → Selects m (take 1024 (sort_by_age (keep is_evictable m)))
oldest-Selects m u = take-Selects m 1024 _ (sort-Selects m _ (keep-Selects m u))
