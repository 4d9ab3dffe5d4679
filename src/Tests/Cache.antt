-- ===== src/Tests/Cache.antt =====
-- crates/igra/src/submitter.rs: a read that an invalidation overtakes.
use igra_foundry_sdk.Prelude.{false, []}
use igra_foundry_sdk.Prelude.Text.{codes}
use igra_foundry_sdk.Submitter.Cache.{default_cache, store_fetched, bump_epoch, clear_cache}
use igra_foundry_sdk.Submitter.Cache.Interleavings.{Shared}

abbrev at_rest : Shared
at_rest = record { cache = default_cache; clearing = 0 }

-- A read begins at epoch 1, an invalidation runs, and the read stores late.
abbrev bumped : Shared
bumped = record { cache = bump_epoch default_cache; clearing = 1 }

abbrev cleared : Shared
cleared = record { cache = clear_cache (bump_epoch default_cache); clearing = 0 }

abbrev overtaken : Shared
overtaken = record cleared { cache = store_fetched false 1 (codes "k") [] cleared.cache }
