-- ===== src/Submitter/Cache.antt =====
-- crates/igra/src/submitter.rs: `load_utxos` and `invalidate_utxo_cache`, with the points at which
-- other tasks can run in between.
pub mod Interleavings
use igra_foundry_sdk.Prelude.{
  ℕ, ◌+◌, ◌*◌, ◌%◌, ◌^◌, Bool, true, false, ◌&&◌, ◌||◌, Option, none, some, List, Result, ok, err,
  ◌++◌, leb, ◌==◌, if◌then◌else◌,
}
use igra_foundry_sdk.Prelude.Text.{Text, codes, text_eq}
use igra_foundry_sdk.Payload.Select.{Utxo}

-- `read_epoch` is the value of the epoch when the entries began to be read. It is not a field of the
-- program's; no function of the program reads it.
pub record CachedUtxoSet : Type 0 where
  pub cache_key : Text
  pub entries : List Utxo
  pub read_epoch : ℕ

-- The mutex `utxo_cache` and the atomic `utxo_cache_epoch`.
pub record SubmitterCache : Type 0 where
  pub utxo_cache : Option CachedUtxoSet
  pub utxo_cache_epoch : ℕ

abbrev pub default_cache : SubmitterCache
default_cache = record { utxo_cache = none; utxo_cache_epoch = 1 }

-- `fetch_add(1)`, then the assignment under the lock.
unfoldable pub bump_epoch : SubmitterCache → SubmitterCache
bump_epoch c = record c { utxo_cache_epoch = (c.utxo_cache_epoch + 1) % 2 ^ 64 }

unfoldable pub clear_cache : SubmitterCache → SubmitterCache
clear_cache c = record c { utxo_cache = none }

unfoldable pub invalidate_utxo_cache : SubmitterCache → SubmitterCache
unfolding bump_epoch clear_cache
invalidate_utxo_cache c = clear_cache (bump_epoch c)

abbrev cache_ttl_ns : ℕ
cache_ttl_ns = 20 * 1_000_000_000

-- The entries that are served from the cache; `age` is what `fetched_at.elapsed()` says.
unfoldable pub fresh_entries : Option CachedUtxoSet → Text → ℕ → Option (List Utxo)
fresh_entries none cache_key age = none
fresh_entries (some cache) cache_key age =
    if text_eq cache.cache_key cache_key && leb age cache_ttl_ns then some cache.entries else none

unfoldable pub cached : Bool → SubmitterCache → Text → ℕ → Option (List Utxo)
unfolding fresh_entries
cached true c cache_key age = none
cached false c cache_key age = fresh_entries c.utxo_cache cache_key age

-- What happens under the lock once the entries have arrived.
unfoldable pub store_fetched : Bool → ℕ → Text → List Utxo → SubmitterCache → SubmitterCache
store_fetched force_refresh read_epoch cache_key entries c =
    if force_refresh || c.utxo_cache_epoch == read_epoch
    then record c {
      utxo_cache =
          some (record { cache_key = cache_key; entries = entries; read_epoch = read_epoch });
    }
    else c

unfoldable pub after_fetch :
    Bool
    → ℕ
    → Text
    → Result Text (List Utxo)
    → SubmitterCache
    → Result Text (List Utxo) × SubmitterCache
unfolding store_fetched
after_fetch force_refresh read_epoch cache_key (err e) c =
    (err (codes "IGRA submit error: failed to load Kaspa UTXOs: " ++ e), c)
after_fetch force_refresh read_epoch cache_key (ok entries) c =
    (ok entries, store_fetched force_refresh read_epoch cache_key entries c)

-- `others` is what other tasks do to the cache while the node answers.
unfoldable pub load_utxos :
    Bool
    → Text
    → ℕ
    → Result Text (List Utxo)
    → (SubmitterCache → SubmitterCache)
    → SubmitterCache
    → Result Text (List Utxo) × SubmitterCache
unfolding cached after_fetch
load_utxos force_refresh cache_key age fetched others c =
    elim (cached force_refresh c cache_key age) [
      | some entries ↦ (ok entries, c)
      | none ↦ after_fetch force_refresh c.utxo_cache_epoch cache_key fetched (others c)
    ]
