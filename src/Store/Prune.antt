-- ===== src/Store/Prune.antt =====
-- crates/igra/src/store.rs: `prune_cache` and `enforce_size_budget`.
pub mod Selection
pub mod Induction
pub mod InFlight
pub mod Budget
use igra_foundry_sdk.Prelude.{
  ℕ, zero, suc, ◌+◌, ◌*◌, Bool, true, false, ◌&&◌, Option, none, some, List, [], ◌∷◌, Result, ok,
  err, map, leb, ◌==◌, if◌then◌else◌, take, keep, delete_where, Table,
}
use igra_foundry_sdk.Prelude.Text.{Text, one_of}
use igra_foundry_sdk.Prelude.Words.{
  ℤ, ltb_ℤ, as_i64, saturating_mul, saturating_sub_i64, saturating_mul_i64,
}
use igra_foundry_sdk.Store.Types.{
  IgraStoreError, as_str, kaspa_broadcasted, failed_recoverable, blocked_nonce_gap,
  blocked_lock_timeout, stale_replacement_candidate,
}
use igra_foundry_sdk.Store.Db.{Db, TxRow, Faults, exec, Action, after, statement}
use igra_foundry_sdk.Store.Lifecycle.{IgraStore}

-- `now.saturating_sub((hours as i64).saturating_mul(3_600_000))`
unfoldable pub cutoff : ℕ → ℕ → ℤ
cutoff now_ms hours =
    saturating_sub_i64 (as_i64 now_ms) (saturating_mul_i64 (as_i64 hours) 3_600_000)

abbrev pub completed_states : List Text
completed_states = as_str kaspa_broadcasted ∷ []

abbrev pub failed_states : List Text
failed_states =
    as_str failed_recoverable ∷ as_str blocked_nonce_gap ∷ as_str blocked_lock_timeout ∷ []

abbrev pub evictable_states : List Text
evictable_states =
    as_str failed_recoverable
    ∷ as_str blocked_nonce_gap
    ∷ as_str blocked_lock_timeout
    ∷ as_str stale_replacement_candidate
    ∷ as_str kaspa_broadcasted
    ∷ []

-- DELETE FROM tx_map WHERE state IN (...) AND updated_at_ms < ?1
unfoldable pub expired : List Text → ℤ → Text → TxRow → Bool
expired states limit hash row = one_of row.state states && ltb_ℤ row.updated_at_ms limit

unfoldable pub delete_expired : List Text → ℤ → Db → Db
unfolding expired
delete_expired states limit db = record db {
  tx_map = delete_where (expired states limit) db.tx_map;
}

-- ORDER BY updated_at_ms ASC. Rows of one age keep their order; SQLite leaves it open.
pub insert_by_age : Text × TxRow → List (Text × TxRow) → List (Text × TxRow)
insert_by_age r [] = r ∷ []
insert_by_age r (s ∷ rows) =
    if ltb_ℤ (s.1).updated_at_ms (r.1).updated_at_ms then s ∷ insert_by_age r rows else r ∷ s ∷ rows

pub sort_by_age : List (Text × TxRow) → List (Text × TxRow)
unfolding insert_by_age
sort_by_age [] = []
sort_by_age (r ∷ rows) = insert_by_age r (sort_by_age rows)

pub is_evictable : Text × TxRow → Bool
is_evictable r = one_of (r.1).state evictable_states

-- SELECT l2_tx_hash FROM tx_map WHERE state IN (...) ORDER BY updated_at_ms ASC LIMIT 1024
pub oldest : Table TxRow → List Text
unfolding is_evictable sort_by_age
oldest rows = map (λ r. r.0) (take 1024 (sort_by_age (keep is_evictable rows)))

unfoldable pub delete_hashes : List Text → Db → Db
delete_hashes hashes db = record db { tx_map = delete_where (λ k v. one_of k hashes) db.tx_map }

-- One round: whether the file is small enough, the outcome of the DELETE, the hashes that it finds,
-- the outcome of the checkpoint with VACUUM, and the rest of the loop.
pub evict_round :
    Bool
    → Result IgraStoreError (Unit {0})
    → List Text
    → Result IgraStoreError (Unit {0})
    → Db
    → (Db → Option (Result IgraStoreError (Unit {0}) × Db))
    → Option (Result IgraStoreError (Unit {0}) × Db)
unfolding delete_hashes
evict_round true deleted hashes vacuumed db again = some (ok tt, db)
evict_round false (err e) hashes vacuumed db again = some (err e, db)
evict_round false (ok _) [] vacuumed db again = some (ok tt, db)
evict_round false (ok _) (h ∷ hs) (err e) db again = some (err e, delete_hashes (h ∷ hs) db)
evict_round false (ok _) (h ∷ hs) (ok _) db again = again (delete_hashes (h ∷ hs) db)

-- Round i reads the file's size, `sizes i`; its DELETE is call 3 + 2 i, the checkpoint with VACUUM the
-- next one. `none` means that the fuel ran out.
pub evict_loop : ℕ → ℕ → (ℕ → ℕ) → ℕ → Faults → Db → Option (Result IgraStoreError (Unit {0}) × Db)
unfolding evict_round
evict_loop zero i sizes max_bytes faults db = none
evict_loop (suc fuel) i sizes max_bytes faults db =
    evict_round (leb (sizes i) max_bytes) (exec faults (3 + 2 * i)) (oldest db.tx_map)
      (exec faults (4 + 2 * i)) db (evict_loop fuel (i + 1) sizes max_bytes faults)

-- `size` is the file's size before the loop.
unfoldable pub enforce_size_budget :
    ℕ → IgraStore → ℕ → (ℕ → ℕ) → Faults → Db → Option (Result IgraStoreError (Unit {0}) × Db)
unfolding evict_loop
enforce_size_budget fuel store size sizes faults db =
    if store.max_db_size_mb == 0
    then some (ok tt, db)
    else if leb size (saturating_mul store.max_db_size_mb (1024 * 1024))
    then some (ok tt, db)
    else evict_loop fuel 0 sizes (saturating_mul store.max_db_size_mb (1024 * 1024)) faults db

-- The two DELETEs by age are calls 1 and 2, after the opening.
unfoldable pub delete_completed : IgraStore → ℕ → Faults → Action
unfolding statement delete_expired cutoff
delete_completed store now_ms faults =
    statement faults 1
      (delete_expired completed_states (cutoff now_ms store.completed_retention_hours))

unfoldable pub delete_failed : IgraStore → ℕ → Faults → Action
unfolding statement delete_expired cutoff
delete_failed store now_ms faults =
    statement faults 2 (delete_expired failed_states (cutoff now_ms store.failed_retention_hours))

unfoldable pub delete_both : IgraStore → ℕ → Faults → Action
unfolding after delete_completed delete_failed
delete_both store now_ms faults db =
    after (delete_completed store now_ms faults db) (delete_failed store now_ms faults)

unfoldable pub delete_by_age : IgraStore → ℕ → Faults → Action
unfolding after statement delete_both
delete_by_age store now_ms faults db =
    after (statement faults 0 (λ d. d) db) (delete_both store now_ms faults)

unfoldable pub then_budget :
    Result IgraStoreError (Unit {0}) × Db
    → (Db → Option (Result IgraStoreError (Unit {0}) × Db))
    → Option (Result IgraStoreError (Unit {0}) × Db)
then_budget (ok _, db) next = next db
then_budget (err e, db) next = some (err e, db)

unfoldable pub prune_cache :
    ℕ → IgraStore → ℕ → ℕ → (ℕ → ℕ) → Faults → Db → Option (Result IgraStoreError (Unit {0}) × Db)
unfolding delete_by_age then_budget enforce_size_budget
prune_cache fuel store now_ms size sizes faults db =
    then_budget (delete_by_age store now_ms faults db)
      (enforce_size_budget fuel store size sizes faults)
