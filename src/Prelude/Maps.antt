-- ===== src/Prelude/Maps.antt =====
-- A table with a text as its primary key: the rows in the order in which they were inserted.
use mathlib.Core.Path.{◌≡◌, refl, subst}
use mathlib.Core.Bool.{Bool}
use mathlib.Core.Option.{Option, none, some}
use mathlib.Core.List.{List, [], ◌∷◌}
use native.Mathlib.Omega.{arith}
use igra_foundry_sdk.Prelude.Tests.{if◌then◌else◌, Bool-cases}
use mathlib.Core.Logic.{inl, inr}
use igra_foundry_sdk.Prelude.Text.{Text, text_eq, text_eq_iff}

abbrev pub Table : Type 0 → Type 0
Table V = List (Text × V)

module _ {V : Type 0} where
  -- SELECT ... WHERE key = k
  unfoldable pub find : Text → Table V → Option V
  find k [] = none
  find k ((j, v) ∷ m) = if text_eq j k then some v else find k m

  -- INSERT ... ON CONFLICT(key) DO UPDATE SET ...
  unfoldable pub upsert : Text → V → Table V → Table V
  upsert k v [] = (k, v) ∷ []
  upsert k v ((j, w) ∷ m) = if text_eq j k then (k, v) ∷ m else (j, w) ∷ upsert k v m

  -- DELETE ... WHERE key = k AND p(row)
  unfoldable pub delete_where : (Text → V → Bool) → Table V → Table V
  delete_where p [] = []
  delete_where p ((j, v) ∷ m) = if p j v then delete_where p m else (j, v) ∷ delete_where p m

  pub find-upsert :
      (k j : Text) (v : V) (m : Table V)
      → find j (upsert k v m) ≡ (if text_eq k j then some v else find j m)
  unfolding find upsert
  find-upsert k j v [] = refl
  find-upsert k j v ((i, w) ∷ m) =
      ground (arith, text_eq_iff k j, text_eq_iff i k, text_eq_iff i j, find-upsert k j v m)

  -- A deletion by a test of the key alone.
  pub find-delete_where_key :
      (q : Text → Bool) (j : Text) (m : Table V)
      → find j (delete_where (λ k v. q k) m) ≡ (if q j then none else find j m)
  unfolding find delete_where
  find-delete_where_key q j [] = ground arith
  find-delete_where_key q j ((i, w) ∷ m) =
      ground (arith, text_eq_iff i j, find-delete_where_key q j m)

  -- A primary key stands in one row.
  abbrev pub Unique : Table V → Type 0
  Unique [] = Unit
  Unique ((k, v) ∷ m) = (find k m ≡ none) × Unique m

  pub upsert-Unique : (k : Text) (v : V) (m : Table V) → Unique m → Unique (upsert k v m)
  unfolding upsert find
  upsert-Unique k v [] u = (refl, tt)
  upsert-Unique k v ((i, w) ∷ m) u =
      ground (arith, text_eq_iff i k, text_eq_iff k i, find-upsert k i v m, upsert-Unique k v m)

  pub find-delete_where-none :
      (p : Text → V → Bool) (j : Text) (m : Table V)
      → find j m ≡ none
      → find j (delete_where p m) ≡ none
  unfolding find delete_where
  find-delete_where-none p j [] h = refl
  find-delete_where-none p j ((i, w) ∷ m) h = ground (arith, find-delete_where-none p j m)

  pub delete_where-Unique :
      (p : Text → V → Bool) (m : Table V) → Unique m → Unique (delete_where p m)
  unfolding delete_where
  delete_where-Unique p [] u = tt
  delete_where-Unique p ((i, w) ∷ m) u =
      ground (arith, find-delete_where-none p i m, delete_where-Unique p m)

  -- What a row that is found becomes under a deletion.
  abbrev pub unless : (Text → V → Bool) → Text → Option V → Option V
  unless p j none = none
  unless p j (some v) = if p j v then none else some v

  pub find-delete_where :
      (p : Text → V → Bool) (j : Text) (m : Table V)
      → Unique m
      → find j (delete_where p m) ≡ unless p j (find j m)
  unfolding find delete_where
  find-delete_where p j [] u = refl
  find-delete_where p j ((i, w) ∷ m) u = elim (Bool-cases (text_eq i j)) [
    | inl same ↦
        let e : i ≡ j = (text_eq_iff i j).0 same in
        subst (λ k. find k (delete_where p ((i, w) ∷ m)) ≡ unless p k (find k ((i, w) ∷ m))) e
          (ground (arith, text_eq_iff i i, find-delete_where-none p i m))
    | inr other ↦ ground (arith, find-delete_where p j m)
  ]

  -- A property of every row, whatever its key.
  abbrev pub Rows : (V → Type 0) → Table V → Type 0
  Rows P [] = Unit
  Rows P ((k, v) ∷ m) = P v × Rows P m

  abbrev OfFound : (V → Type 0) → Option V → Type 0
  OfFound P none = Unit
  OfFound P (some v) = P v

  pub Rows-find :
      (P : V → Type 0) (k : Text) (v : V) (m : Table V) → Rows P m → find k m ≡ some v → P v
  unfolding find
  Rows-find P k v [] h e = absurd (cc e)
  Rows-find P k v ((j, w) ∷ m) h e = elim (Bool-cases (text_eq j k)) [
    | inl same ↦ let one : some w ≡ some v = ground arith in subst (OfFound P) one h.0
    | inr other ↦ Rows-find P k v m h.1 (ground arith)
  ]

  pub Rows-upsert :
      (P : V → Type 0) (k : Text) (v : V) (m : Table V) → P v → Rows P m → Rows P (upsert k v m)
  unfolding upsert
  Rows-upsert P k v [] p h = (p, tt)
  Rows-upsert P k v ((j, w) ∷ m) p h = elim (Bool-cases (text_eq j k)) [
    | inl same ↦ rw same (p, h.1)
    | inr other ↦ rw other (h.0, Rows-upsert P k v m p h.1)
  ]

  pub Rows-delete_where :
      (P : V → Type 0) (q : Text → V → Bool) (m : Table V) → Rows P m → Rows P (delete_where q m)
  unfolding delete_where
  Rows-delete_where P q [] h = tt
  Rows-delete_where P q ((j, w) ∷ m) h = elim (Bool-cases (q j w)) [
    | inl gone ↦ rw gone (Rows-delete_where P q m h.1)
    | inr kept ↦ rw kept (h.0, Rows-delete_where P q m h.1)
  ]
