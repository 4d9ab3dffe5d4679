-- ===== src/Store/Schedule.antt =====
-- crates/igra/src/store.rs: tasks and processes that share one database file, as steps of one
-- system. A task holds a lease from an answer that grants it until the task asks for its release.
pub mod Leases
pub mod Holding
pub mod Exclusive
pub mod Grown
pub mod History
pub mod Once
use igra_foundry_sdk.Prelude.{
  ℕ, ◌≤◌, ◌≡◌, Bool, true, false, not, ◌&&◌, some, Result, ok, List, [], ◌∷◌, keep, ◌==◌,
}
use igra_foundry_sdk.Prelude.Text.{Text, text_eq}
use igra_foundry_sdk.Prelude.Words.{saturating_add}
use igra_foundry_sdk.Store.Types.{IgraStoreError, in_order}
use igra_foundry_sdk.Store.Db.{Db, Faults, empty_db, no_faults}
use igra_foundry_sdk.Store.Operation.View.{view, is_other_profile}
use igra_foundry_sdk.Store.Lifecycle.{IgraStore}
use igra_foundry_sdk.Store.Prune.{prune_cache}
use igra_foundry_sdk.Store.Operation.{
  Operation, Fits, try_lock, try_classify, release, mark, set_version, reconcile, Answer, took,
  ordered_if_free, run,
}

pub record Grant : Type 0 where
  pub sender : Text
  pub owner_id : Text
  pub until : ℕ

pub record System : Type 0 where
  pub db : Db
  pub now : ℕ
  -- the leases that tasks believe they hold
  pub grants : List Grant
  -- the senders and nonces that were answered to be in order, and those that were then marked
  pub ordered : List (Text × ℕ)
  pub marked : List (Text × ℕ)

abbrev pub is_of : Text → Text → Grant → Bool
is_of sender owner_id g = text_eq g.sender sender && text_eq g.owner_id owner_id

abbrev pub dropped : Text → Text → List Grant → List Grant
dropped sender owner_id gs = keep (λ g. not (is_of sender owner_id g)) gs

-- A new lease takes the place of the one that the same owner had.
abbrev pub granted : Text → Text → ℕ → List Grant → List Grant
granted sender owner_id until gs =
    record { sender = sender; owner_id = owner_id; until = until } ∷ dropped sender owner_id gs

abbrev pub grants_after : Operation → Result IgraStoreError Answer → List Grant → List Grant
grants_after (try_lock sender owner_id now lease_ms) (ok (took true)) gs =
    granted sender owner_id (saturating_add now lease_ms) gs
grants_after (try_classify sender owner_id nonce l2_tx_hash now lease_ms)
      (ok (ordered_if_free (some o))) gs =
    granted sender owner_id (saturating_add now lease_ms) gs
grants_after (release sender owner_id) r gs = dropped sender owner_id gs
grants_after _ r gs = gs

abbrev pub ordered_after :
    Operation → Result IgraStoreError Answer → List (Text × ℕ) → List (Text × ℕ)
ordered_after (try_classify sender owner_id nonce l2_tx_hash now lease_ms)
      (ok (ordered_if_free (some (in_order e)))) ns =
    (sender, nonce) ∷ ns
ordered_after _ r ns = ns

abbrev pub marked_after :
    Operation → Result IgraStoreError Answer → List (Text × ℕ) → List (Text × ℕ)
marked_after (mark sender nonce now) (ok a) ns = (sender, nonce) ∷ ns
marked_after _ r ns = ns

abbrev pub has : Text → ℕ → List (Text × ℕ) → Bool
has sender nonce [] = false
has sender nonce ((s, n) ∷ ns) = elim (text_eq s sender && n == nonce) [
  | true ↦ true
  | false ↦ has sender nonce ns
]

-- What an operation may be at a moment: leases are taken by the clock that all share, a nonce is
-- marked when it was answered to be in order, and a store opens the file again only with the profile
-- that the file has.
abbrev pub Allowed : System → IgraStore → Operation → Type 0
Allowed s store (try_lock sender owner_id now lease_ms) = s.now ≡ now
Allowed s store (try_classify sender owner_id nonce l2_tx_hash now lease_ms) = s.now ≡ now
Allowed s store (mark sender nonce now) = has sender nonce s.ordered ≡ true
Allowed s store reconcile = is_other_profile store (view s.db).meta ≡ false
Allowed s store _ = Unit

abbrev pub ran : System → Operation → Result IgraStoreError Answer × Db → System
ran s op (r, db) = record {
  db = db;
  now = s.now;
  grants = grants_after op r s.grants;
  ordered = ordered_after op r s.ordered;
  marked = marked_after op r s.marked;
}

pub data Step (s : System) : System → Type 0 where
  wait : (now : ℕ) → s.now ≤ now → Step s (record s { now = now })
  act :
      (store : IgraStore) (faults : Faults) (op : Operation)
      → Fits op
      → Allowed s store op
      → Step s (ran s op (run store faults op s.db))
  prune :
      {db : Db} {r : Result IgraStoreError (Unit {0})} (fuel : ℕ) (store : IgraStore) (now size : ℕ)
      (sizes : ℕ → ℕ) (faults : Faults)
      → prune_cache fuel store now size sizes faults s.db ≡ some (r, db)
      → Step s (record s { db = db })

-- A store has opened a file that was not there before.
abbrev pub opened : IgraStore → System
opened first = record {
  db = (run first no_faults reconcile (run first no_faults set_version empty_db).1).1;
  now = 0;
  grants = [];
  ordered = [];
  marked = [];
}

pub data Reach : System → Type 0 where
  start : (first : IgraStore) → Reach (opened first)
  later : {s t : System} → Reach s → Step s t → Reach t
