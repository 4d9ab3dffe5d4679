-- ===== src/Submitter/Cache/Interleavings.antt =====
-- crates/igra/src/submitter.rs: tasks that read and invalidate the cache in any order.
use igra_foundry_sdk.Prelude.{ℕ, suc, ◌<◌, ◌≡◌, false, Option, none, some, List, ◌⊎◌}
use igra_foundry_sdk.Prelude.Text.{Text}
use igra_foundry_sdk.Payload.Select.{Utxo}
use igra_foundry_sdk.Submitter.Cache.{
  CachedUtxoSet, SubmitterCache, bump_epoch, clear_cache, store_fetched,
}

-- The shared cache, and how many invalidations stand between their two halves.
pub record Shared : Type 0 where
  pub cache : SubmitterCache
  pub clearing : ℕ

-- One step of some task, no read being forced. A read that began at any earlier epoch stores what it
-- fetched; an invalidation moves the epoch on, and later clears the cache.
pub data Step : Shared → Shared → Type 0 where
  store :
      (s : Shared) (read_epoch : ℕ) (key : Text) (entries : List Utxo)
      → Step s (record s { cache = store_fetched false read_epoch key entries s.cache })
  bump : (s : Shared) → Step s (record { cache = bump_epoch s.cache; clearing = suc s.clearing })
  clear :
      (s : Shared) (n : ℕ)
      → s.clearing ≡ suc n
      → Step s (record { cache = clear_cache s.cache; clearing = n })

pub data Reach (s : Shared) : Shared → Type 0 where
  here : Reach s s
  next : {t u : Shared} → Reach s t → Step t u → Reach s u

-- What is cached was read in the present epoch, unless an invalidation is about to clear it.
abbrev IsCurrentCache : ℕ → ℕ → Option CachedUtxoSet → Type 0
IsCurrentCache epoch clearing none = Unit
IsCurrentCache epoch clearing (some c) = (c.read_epoch ≡ epoch) ⊎ (0 < clearing)

abbrev pub IsCurrent : Shared → Type 0
IsCurrent s = IsCurrentCache s.cache.utxo_cache_epoch s.clearing s.cache.utxo_cache
