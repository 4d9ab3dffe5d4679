-- ===== src/Store/Nonce/Candidates.antt =====
-- crates/igra/src/store.rs: `is_stale_replacement_candidate` finds a row exactly when there is one.
use igra_foundry_sdk.Prelude.{
  ℕ, ◌≡◌, ◌≢◌, ◌↔◌, true, ◌&&◌, not, none, some, find, [], ◌∷◌, Unique, arith, Table, Bool-cases,
  inl, inr,
}
use igra_foundry_sdk.Prelude.Text.{Text, text_eq, text_eq_iff, text_eq_refl}
use igra_foundry_sdk.Prelude.Words.{ℤ, pos, negsuc, as_i64}
use igra_foundry_sdk.Store.Db.{TxRow}
use igra_foundry_sdk.Store.Nonce.{eq_i64, has_other_hash}

-- Another row with the sender and the nonce.
eq_i64_iff : (a b : ℤ) → (eq_i64 a b ≡ true) ↔ (a ≡ b)
unfolding eq_i64
eq_i64_iff (pos a) (pos b) = ground arith
eq_i64_iff (pos a) (negsuc b) = ground arith
eq_i64_iff (negsuc a) (pos b) = ground arith
eq_i64_iff (negsuc a) (negsuc b) = ground arith

abbrev pub Other : Table TxRow → Text → ℕ → Text → Type 0
Other rows sender nonce incoming =
    (h : Text) × (row : TxRow) × (find h rows ≡ some row)
    × (row.sender ≡ sender)
    × (row.l2_nonce ≡ as_i64 nonce)
    × (h ≢ incoming)

Other-cons :
    (k : Text) (w : TxRow) (rows : Table TxRow) (sender : Text) (nonce : ℕ) (incoming : Text)
    → find k rows ≡ none
    → Other rows sender nonce incoming
    → Other ((k, w) ∷ rows) sender nonce incoming
unfolding find
Other-cons k w rows sender nonce incoming fresh (h, row, found, s, n, other) =
    (h, row, ground (arith, text_eq_iff k h), s, n, other)

pub has_other_hash_sound :
    (sender : Text) (nonce : ℕ) (incoming : Text) (rows : Table TxRow)
    → Unique rows
    → has_other_hash sender nonce incoming rows ≡ true
    → Other rows sender nonce incoming
unfolding has_other_hash find
has_other_hash_sound sender nonce incoming [] u h = ground arith
has_other_hash_sound sender nonce incoming ((k, w) ∷ rows) u h =
    elim (Bool-cases
      (text_eq w.sender sender && eq_i64 w.l2_nonce (as_i64 nonce) && not (text_eq k incoming))) [
        | inl e ↦ (
          k,
          w,
          ground (arith, text_eq_refl k),
          ground (arith, text_eq_iff w.sender sender),
          ground (arith, eq_i64_iff w.l2_nonce (as_i64 nonce)),
          ground (arith, text_eq_iff k incoming),
        )
        | inr e ↦
            Other-cons k w rows sender nonce incoming u.0
              (has_other_hash_sound sender nonce incoming rows u.1 (ground arith))
      ]

pub has_other_hash_complete :
    (sender : Text) (nonce : ℕ) (incoming : Text) (rows : Table TxRow)
    → Other rows sender nonce incoming
    → has_other_hash sender nonce incoming rows ≡ true
unfolding has_other_hash find
has_other_hash_complete sender nonce incoming [] (h, row, found, s, n, other) = ground arith
has_other_hash_complete sender nonce incoming ((k, w) ∷ rows) (h, row, found, s, n, other) =
    elim (Bool-cases (text_eq k h)) [
      | inl e ↦ ground (
        arith,
        text_eq_iff k h,
        text_eq_iff w.sender sender,
        text_eq_iff k incoming,
        eq_i64_iff w.l2_nonce (as_i64 nonce),
      )
      | inr e ↦ ground (
        arith,
        has_other_hash_complete sender nonce incoming rows (h, row, ground arith, s, n, other),
      )
    ]
