-- ===== src/Store/Prune/Induction.antt =====
-- crates/igra/src/store.rs: a property of the tables that every deletion of `prune_cache` keeps.
use igra_foundry_sdk.Prelude.{
  ℕ, zero, suc, ◌+◌, ◌*◌, ◌≡◌, Bool, true, false, Option, none, some, List, [], ◌∷◌, Result, ok,
  err, leb, ◌==◌, Bool-cases, Option-cases, inl, inr, subst,
}
use igra_foundry_sdk.Prelude.Text.{Text}
use igra_foundry_sdk.Prelude.Words.{ℤ, saturating_mul}
use igra_foundry_sdk.Store.Types.{IgraStoreError}
use igra_foundry_sdk.Store.Db.{Db, Faults, exec}
use igra_foundry_sdk.Store.Lifecycle.{IgraStore}
use igra_foundry_sdk.Store.Db.{after, statement}
use igra_foundry_sdk.Store.Prune.{
  cutoff, completed_states, failed_states, delete_expired, oldest, delete_hashes, evict_round,
  evict_loop, enforce_size_budget, delete_by_age, delete_both, delete_completed, delete_failed,
  then_budget, prune_cache,
}

-- The deletions by age and of a round of evictions keep `P`.
module _ (P : Db → Type 0)
    (completed : (limit : ℤ) (db : Db) → P db → P (delete_expired completed_states limit db))
    (failed : (limit : ℤ) (db : Db) → P db → P (delete_expired failed_states limit db))
    (evicted : (db : Db) → P db → P (delete_hashes (oldest db.tx_map) db)) where
  -- Where the loop returns, the property holds.
  abbrev HoldsAfter : Option (Result IgraStoreError (Unit {0}) × Db) → Type 0
  HoldsAfter none = Unit
  HoldsAfter (some (r, db)) = P db

  evict_round-HoldsAfter :
      (small : Bool) (deleted : Result IgraStoreError (Unit {0})) (hashes : List Text)
      (vacuumed : Result IgraStoreError (Unit {0})) (db : Db)
      (again : Db → Option (Result IgraStoreError (Unit {0}) × Db))
      → P db
      → P (delete_hashes hashes db)
      → ((d : Db) → P d → HoldsAfter (again d))
      → HoldsAfter (evict_round small deleted hashes vacuumed db again)
  unfolding evict_round
  evict_round-HoldsAfter true deleted hashes vacuumed db again h h' rest = h
  evict_round-HoldsAfter false (err e) hashes vacuumed db again h h' rest = h
  evict_round-HoldsAfter false (ok _) [] vacuumed db again h h' rest = h
  evict_round-HoldsAfter false (ok _) (x ∷ xs) (err e) db again h h' rest = h'
  evict_round-HoldsAfter false (ok _) (x ∷ xs) (ok _) db again h h' rest = rest _ h'

  evict_loop-HoldsAfter :
      (fuel i : ℕ) (sizes : ℕ → ℕ) (max_bytes : ℕ) (faults : Faults) (db : Db)
      → P db
      → HoldsAfter (evict_loop fuel i sizes max_bytes faults db)
  unfolding evict_loop
  evict_loop-HoldsAfter zero i sizes max_bytes faults db h = tt
  evict_loop-HoldsAfter (suc fuel) i sizes max_bytes faults db h =
      evict_round-HoldsAfter _ _ (oldest db.tx_map) _ db _ h (evicted db h)
        (λ d hd. evict_loop-HoldsAfter fuel (i + 1) sizes max_bytes faults d hd)

  statement-P :
      (faults : Faults) (n : ℕ) (effect : Db → Db) (db : Db)
      → P db
      → P (effect db)
      → P (statement faults n effect db).1
  unfolding statement exec
  statement-P faults n effect db h h' = elim (Option-cases (faults n)) [
    | inl e ↦ rw (e, statement) h'
    | inr (f, e) ↦ rw (e, statement) h
  ]

  after-P :
      (r : Result IgraStoreError (Unit {0}) × Db)
      (next : Db → Result IgraStoreError (Unit {0}) × Db)
      → P r.1
      → ((d : Db) → P d → P (next d).1)
      → P (after r next).1
  unfolding after
  after-P (ok _, db) next h rest = rest db h
  after-P (err e, db) next h rest = h

  delete_completed-P :
      (store : IgraStore) (now_ms : ℕ) (faults : Faults) (db : Db)
      → P db
      → P (delete_completed store now_ms faults db).1
  unfolding delete_completed
  delete_completed-P store now_ms faults db h =
      let limit = cutoff now_ms store.completed_retention_hours in
      statement-P faults 1 (delete_expired completed_states limit) db h (completed limit db h)

  delete_failed-P :
      (store : IgraStore) (now_ms : ℕ) (faults : Faults) (db : Db)
      → P db
      → P (delete_failed store now_ms faults db).1
  unfolding delete_failed
  delete_failed-P store now_ms faults db h =
      let limit = cutoff now_ms store.failed_retention_hours in
      statement-P faults 2 (delete_expired failed_states limit) db h (failed limit db h)

  delete_by_age-P :
      (store : IgraStore) (now_ms : ℕ) (faults : Faults) (db : Db)
      → P db
      → P (delete_by_age store now_ms faults db).1
  unfolding delete_by_age delete_both
  delete_by_age-P store now_ms faults db h =
      after-P (statement faults 0 (λ d. d) db) (delete_both store now_ms faults)
        (statement-P faults 0 (λ d. d) db h h)
        λ d hd.
          after-P (delete_completed store now_ms faults d) (delete_failed store now_ms faults)
            (delete_completed-P store now_ms faults d hd) (delete_failed-P store now_ms faults)

  then_budget-HoldsAfter :
      (r : Result IgraStoreError (Unit {0}) × Db)
      (next : Db → Option (Result IgraStoreError (Unit {0}) × Db))
      → P r.1
      → ((d : Db) → P d → HoldsAfter (next d))
      → HoldsAfter (then_budget r next)
  unfolding then_budget
  then_budget-HoldsAfter (ok _, db) next h rest = rest db h
  then_budget-HoldsAfter (err e, db) next h rest = h

  enforce_size_budget-HoldsAfter :
      (fuel : ℕ) (store : IgraStore) (size : ℕ) (sizes : ℕ → ℕ) (faults : Faults) (db : Db)
      → P db
      → HoldsAfter (enforce_size_budget fuel store size sizes faults db)
  unfolding enforce_size_budget
  enforce_size_budget-HoldsAfter fuel store size sizes faults db h =
      let max_bytes = saturating_mul store.max_db_size_mb (1024 * 1024) in
      elim (Bool-cases (store.max_db_size_mb == 0)) [
        | inl none_set ↦ rw none_set h
        | inr unset ↦ elim (Bool-cases (leb size max_bytes)) [
          | inl small ↦ rw (unset, small) h
          | inr large ↦ rw (unset, large) (evict_loop-HoldsAfter fuel 0 sizes max_bytes faults db h)
        ]
      ]

  pub prune_cache-Keeps :
      (fuel : ℕ) (store : IgraStore) (now_ms size : ℕ) (sizes : ℕ → ℕ) (faults : Faults)
      (db db' : Db) (r : Result IgraStoreError (Unit {0}))
      → P db
      → prune_cache fuel store now_ms size sizes faults db ≡ some (r, db')
      → P db'
  unfolding prune_cache
  prune_cache-Keeps fuel store now_ms size sizes faults db db' r h e = subst HoldsAfter e (
      then_budget-HoldsAfter (delete_by_age store now_ms faults db)
        (enforce_size_budget fuel store size sizes faults)
        (delete_by_age-P store now_ms faults db h)
        (enforce_size_budget-HoldsAfter fuel store size sizes faults))
