-- ===== src/Store/Prune/Budget.antt =====
-- crates/igra/src/store.rs: the end of the loop of `enforce_size_budget`.
use igra_foundry_sdk.Prelude.{
  ℕ, zero, suc, ◌+◌, ◌≡◌, refl, Bool, true, false, Option, some, List, [], ◌∷◌, Result, ok, err,
  arith, map, find, delete_where-Unique, Unique, Table, delete_where, length, ◌<◌, ◌≤◌, Bool-cases,
  inl, inr, ap, ◌∙◌,
}
use igra_foundry_sdk.Prelude.Text.{Text, text_eq, text_eq_iff, one_of}
use igra_foundry_sdk.Store.Types.{IgraStoreError}
use igra_foundry_sdk.Store.Db.{Db, TxRow, Faults}
use igra_foundry_sdk.Store.Prune.{oldest, delete_hashes, evict_round, evict_loop}
use igra_foundry_sdk.Store.Prune.Selection.{Selects, oldest-Selects}

delete_where-length-le :
    {V : Type 0} (q : Text → Bool) (m : Table V) → length (delete_where (λ k v. q k) m) ≤ length m
unfolding delete_where
delete_where-length-le q [] = omega arith
delete_where-length-le q ((k, v) ∷ m) = ground (arith, delete_where-length-le q m)

-- A deletion that hits a row makes the table shorter.
delete_where-length-lt :
    {V : Type 0} (q : Text → Bool) (j : Text) (w : V) (m : Table V)
    → find j m ≡ some w
    → q j ≡ true
    → length (delete_where (λ k v. q k) m) < length m
unfolding delete_where find
delete_where-length-lt q j w [] f h = cc
delete_where-length-lt q j w ((k, v) ∷ m) f h = elim (Bool-cases (text_eq k j)) [
  | inl same ↦
      let e : k ≡ j = (text_eq_iff k j).0 same in
      let hit : q k ≡ true = ap q e ∙ h in ground (arith, hit, delete_where-length-le q m)
  | inr other ↦ ground (arith, delete_where-length-lt q j w m, delete_where-length-le q m, other)
]

selected-length-lt :
    (m : Table TxRow) (rows : List (Text × TxRow)) (h : Text) (hs : List Text)
    → Selects m rows
    → map (λ r. r.0) rows ≡ h ∷ hs
    → length (delete_where (λ k v. one_of k (h ∷ hs)) m) < length m
unfolding one_of
selected-length-lt m [] h hs s e = cc
selected-length-lt m (r ∷ rows) h hs s e =
    delete_where-length-lt (λ k. one_of k (h ∷ hs)) r.0 r.1 m s.0.0
      (ground (arith, text_eq_iff r.0 h))

abbrev pub Returns : Option (Result IgraStoreError (Unit {0}) × Db) → Type 0
Returns o = (r : Result IgraStoreError (Unit {0}) × Db) × (o ≡ some r)

evict_round-Returns :
    (small : Bool) (deleted : Result IgraStoreError (Unit {0})) (hashes : List Text)
    (vacuumed : Result IgraStoreError (Unit {0})) (db : Db)
    (again : Db → Option (Result IgraStoreError (Unit {0}) × Db))
    → ((h : Text) (hs : List Text) → hashes ≡ h ∷ hs → Returns (again (delete_hashes (h ∷ hs) db)))
    → Returns (evict_round small deleted hashes vacuumed db again)
unfolding evict_round
evict_round-Returns true deleted hashes vacuumed db again rest = (_, refl)
evict_round-Returns false (err e) hashes vacuumed db again rest = (_, refl)
evict_round-Returns false (ok _) [] vacuumed db again rest = (_, refl)
evict_round-Returns false (ok _) (x ∷ xs) (err e) db again rest = (_, refl)
evict_round-Returns false (ok _) (x ∷ xs) (ok _) db again rest = rest x xs refl

delete_hashes-Unique :
    (hashes : List Text) (db : Db) → Unique db.tx_map → Unique (delete_hashes hashes db).tx_map
unfolding delete_hashes
delete_hashes-Unique hashes db u = delete_where-Unique _ db.tx_map u

delete_hashes-length-lt :
    (db : Db) (x : Text) (xs : List Text)
    → Unique db.tx_map
    → oldest db.tx_map ≡ x ∷ xs
    → length (delete_hashes (x ∷ xs) db).tx_map < length db.tx_map
unfolding delete_hashes oldest
delete_hashes-length-lt db x xs u e =
    selected-length-lt db.tx_map _ x xs (oldest-Selects db.tx_map u) e

-- The eviction loop ends: when a hash has one row, one round more than there are rows is enough,
-- whatever the sizes of the file and the outcomes of the statements.
pub evict_loop-Returns :
    (fuel i : ℕ) (sizes : ℕ → ℕ) (max_bytes : ℕ) (faults : Faults) (db : Db)
    → Unique db.tx_map
    → length db.tx_map < fuel
    → Returns (evict_loop fuel i sizes max_bytes faults db)
unfolding evict_loop
evict_loop-Returns zero i sizes max_bytes faults db u h = absurd (omega arith)
evict_loop-Returns (suc fuel) i sizes max_bytes faults db u h =
    evict_round-Returns _ _ (oldest db.tx_map) _ db _ λ x xs e.
      evict_loop-Returns fuel (i + 1) sizes max_bytes faults (delete_hashes (x ∷ xs) db)
        (delete_hashes-Unique (x ∷ xs) db u) (omega (arith, delete_hashes-length-lt db x xs u e))
