-- ===== src/Store/Prune/InFlight.antt =====
-- crates/igra/src/store.rs: pruning and the transactions that are still in flight.
use igra_foundry_sdk.Prelude.{
  ℕ, ◌≡◌, refl, true, false, not, all, some, List, [], ◌∷◌, Result, arith, map, find,
  find-delete_where, delete_where-Unique, find-delete_where_key, Unique, Table, Bool-cases, inl,
  inr, ap, ◌∙◌,
}
use igra_foundry_sdk.Prelude.Text.{Text, text_eq, text_eq_iff, one_of, codes}
use igra_foundry_sdk.Prelude.Words.{ℤ}
use igra_foundry_sdk.Store.Types.{IgraStoreError, as_str}
use igra_foundry_sdk.Store.Db.{Db, TxRow, Faults}
use igra_foundry_sdk.Store.Lifecycle.{IgraStore}
use igra_foundry_sdk.Store.Prune.Selection.{Selects, oldest-Selects}
use igra_foundry_sdk.Store.Prune.{
  completed_states, failed_states, evictable_states, expired, delete_expired, is_evictable, oldest,
  delete_hashes, prune_cache,
}
use igra_foundry_sdk.Store.Prune.Induction.{prune_cache-Keeps}

-- The states between the arrival of a transaction and its broadcast.
abbrev in_flight_states : List Text
in_flight_states =
    codes "RECEIVED_RAW_L2"
    ∷ codes "KASPA_UNSIGNED_CREATED"
    ∷ codes "KASPA_PREFIX_MINED"
    ∷ codes "KASPA_SIGNED"
    ∷ []

abbrev pub InFlight : TxRow → Type 0
InFlight row = one_of row.state in_flight_states ≡ true

-- None of the DELETE statements names such a state.
apart :
    (states : List Text) (state : Text)
    → all (λ s. not (one_of s states)) in_flight_states ≡ true
    → one_of state in_flight_states ≡ true
    → one_of state states ≡ false
unfolding one_of
apart states state h v = ground (
  arith,
  text_eq_iff state (codes "RECEIVED_RAW_L2"),
  text_eq_iff state (codes "KASPA_UNSIGNED_CREATED"),
  text_eq_iff state (codes "KASPA_PREFIX_MINED"),
  text_eq_iff state (codes "KASPA_SIGNED"),
)

completed-InFlight : (row : TxRow) → InFlight row → one_of row.state completed_states ≡ false
unfolding one_of text_eq as_str
completed-InFlight row h = apart completed_states row.state refl h

failed-InFlight : (row : TxRow) → InFlight row → one_of row.state failed_states ≡ false
unfolding one_of text_eq as_str
failed-InFlight row h = apart failed_states row.state refl h

evictable-InFlight : (row : TxRow) → InFlight row → one_of row.state evictable_states ≡ false
unfolding one_of text_eq as_str
evictable-InFlight row h = apart evictable_states row.state refl h

-- The keys of selected rows name no row in flight.
Selects-InFlight :
    (m : Table TxRow) (k : Text) (row : TxRow) (rows : List (Text × TxRow))
    → find k m ≡ some row
    → InFlight row
    → Selects m rows
    → one_of k (map (λ r. r.0) rows) ≡ false
unfolding one_of is_evictable
Selects-InFlight m k row [] f v hs = refl
Selects-InFlight m k row (r ∷ rows) f v hs = elim (Bool-cases (text_eq k r.0)) [
  | inl same ↦
      let e : k ≡ r.0 = (text_eq_iff k r.0).0 same in
      absurd (cc (ap (λ j. find j m) e, hs.0.0, hs.0.1, f, evictable-InFlight row v))
  | inr other ↦ rw other (Selects-InFlight m k row rows f v hs.1)
]

-- The row of `k` is there, and is the only one.
pub record Keeps (k : Text) (row : TxRow) (db : Db) : Type 0 where
  pub unique : Unique db.tx_map
  pub found : find k db.tx_map ≡ some row

module _ (k : Text) (row : TxRow) (v : InFlight row) where
  delete_hashes-Keeps :
      (db : Db) → Keeps k row db → Keeps k row (delete_hashes (oldest db.tx_map) db)
  unfolding delete_hashes oldest
  delete_hashes-Keeps db h = record {
    unique = delete_where-Unique _ db.tx_map h.unique;
    found =
        let hashes = oldest db.tx_map in
        find-delete_where_key (λ j. one_of j hashes) k db.tx_map
        ∙ (rw (Selects-InFlight db.tx_map k row _ h.found v (oldest-Selects db.tx_map h.unique))
            h.found);
  }

  delete_expired-Keeps :
      (states : List Text) (limit : ℤ) (db : Db)
      → one_of row.state states ≡ false
      → Keeps k row db
      → Keeps k row (delete_expired states limit db)
  unfolding delete_expired expired
  delete_expired-Keeps states limit db s h = record {
    unique = delete_where-Unique _ db.tx_map h.unique;
    found = rw (find-delete_where (expired states limit) k db.tx_map h.unique, h.found, s);
  }

  -- Pruning keeps the row of a transaction in flight, that is received, unsigned, mined or signed
  -- but not yet broadcast, whatever the clock, the size of the file
  -- and the failures of its statements, when a hash has one row.
  pub prune_cache-InFlight :
      (fuel : ℕ) (store : IgraStore) (now_ms size : ℕ) (sizes : ℕ → ℕ) (faults : Faults)
      (db db' : Db) (r : Result IgraStoreError (Unit {0}))
      → Unique db.tx_map
      → find k db.tx_map ≡ some row
      → prune_cache fuel store now_ms size sizes faults db ≡ some (r, db')
      → find k db'.tx_map ≡ some row
  prune_cache-InFlight fuel store now_ms size sizes faults db db' r u f e =
      (prune_cache-Keeps (Keeps k row)
        (λ limit d. delete_expired-Keeps completed_states limit d (completed-InFlight row v))
        (λ limit d. delete_expired-Keeps failed_states limit d (failed-InFlight row v))
        delete_hashes-Keeps fuel store now_ms size sizes faults db db' r
        (record { unique = u; found = f }) e).found
