-- ===== src/Store/Operation/Others.antt =====
-- crates/igra/src/store.rs: `is_stale_replacement_candidate` finds a row exactly when another transaction is known.
use mathlib.Core.Logic.{∥∥₁_elim}
use igra_foundry_sdk.Prelude.{ℕ, ◌≡◌, ◌↔◌, true, Unique}
use igra_foundry_sdk.Prelude.Text.{Text}
use igra_foundry_sdk.Store.Db.{Db}
use igra_foundry_sdk.Store.Nonce.{has_other_hash}
use igra_foundry_sdk.Store.Nonce.Candidates.{has_other_hash_sound, has_other_hash_complete}
use igra_foundry_sdk.Store.Operation.View.{view, IsTaken}

pub told_lem :
    (db : Db) (sender : Text) (nonce : ℕ) (incoming : Text)
    → Unique db.tx_map
    → (has_other_hash sender nonce incoming db.tx_map ≡ true)
      ↔ IsTaken (view db) sender nonce incoming
told_lem db sender nonce incoming u = (
  (λ h. ∣ has_other_hash_sound sender nonce incoming db.tx_map u h ∣₁),
  λ t. ∥∥₁_elim t (hlevel) (has_other_hash_complete sender nonce incoming db.tx_map),
)
