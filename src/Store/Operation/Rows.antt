-- ===== src/Store/Operation/Rows.antt =====
-- crates/igra/src/store.rs: rows of transactions and of the profile against the view.
use igra_foundry_sdk.Prelude.{
  ℕ, ◌≡◌, refl, ap, ◌∙◌, true, false, Option, Result, ok, err, find, find-upsert, Table, Bool-cases,
  inl, inr,
}
use igra_foundry_sdk.Prelude.Text.{Text}
use igra_foundry_sdk.Store.Types.{IgraStoreError, TxLifecycleUpdate, TxMapRecord}
use igra_foundry_sdk.Store.Db.{after, statement, Db, no_faults, exec, transaction}
use igra_foundry_sdk.Store.Profile.{
  migrate, clear_if, clear_tables, reconcile_profile_cache, profile_changed, metadata_value,
  set_metadata_value, write_profile, schema_version_key, schema_version_value,
}
use igra_foundry_sdk.Store.Profile.Reconcile.{metadata-set}
use igra_foundry_sdk.Store.Lifecycle.{
  persist_transition, write_row, load_tx, IgraStore, row_of, decode_row,
}
use igra_foundry_sdk.Store.Operation.{
  persist, load, set_version, reconcile, done, loaded, answer, run,
}
use igra_foundry_sdk.Store.Operation.View.{
  view, loaded_view, set, is_other_profile, with_profile, forget_if, promise,
}
use igra_foundry_sdk.Store.Operation.View.{shown}

pub set_version-kept :
    (store : IgraStore) (db : Db)
    → shown (run store no_faults set_version db) ≡ promise store false set_version (view db)
unfolding run migrate after statement exec
set_version-kept store db = λ i. (
  ok done,
  record (view db) {
    meta = λ k. find-upsert schema_version_key k schema_version_value db.schema_meta i;
  },
)

pub persist-kept :
    (store : IgraStore) (db : Db) (update : TxLifecycleUpdate) (now : ℕ)
    → shown (run store no_faults (persist update now) db)
      ≡ promise store false (persist update now) (view db)
unfolding run persist_transition transaction exec write_row
persist-kept store db update now = λ i. (
  ok done,
  record (view db) {
    tx = λ h.
        find-upsert update.l2_tx_hash h (row_of store update (find update.l2_tx_hash db.tx_map) now)
          db.tx_map i;
  },
)

loaded-shown :
    (db : Db) (r : Result IgraStoreError (Option TxMapRecord))
    → shown (answer loaded (r, db)) ≡ loaded_view (view db) r
loaded-shown db (ok a) = refl
loaded-shown db (err e) = refl

pub load-kept :
    (store : IgraStore) (db : Db) (hash : Text)
    → shown (run store no_faults (load hash) db) ≡ promise store false (load hash) (view db)
unfolding run load_tx exec
load-kept store db hash = loaded-shown db (decode_row hash (find hash db.tx_map))

set-metadata :
    (key : Text) (o : Option Text) (m : Table Text)
    → (λ k. metadata_value (set_metadata_value m key o) k) ≡ set key o (λ k. metadata_value m k)
set-metadata key o m = λ i k. metadata-set m key k o i

set-metadata_after :
    (key : Text) (o : Option Text) (m : Table Text) (f : Text → Option Text)
    → (λ k. metadata_value m k) ≡ f
    → (λ k. metadata_value (set_metadata_value m key o) k) ≡ set key o f
set-metadata_after key o m f h = set-metadata key o m ∙ ap (set key o) h

meta-write_profile :
    (store : IgraStore) (m : Table Text)
    → (λ k. find k (write_profile store m)) ≡ with_profile store (λ k. find k m)
unfolding write_profile metadata_value
meta-write_profile store m =
    set-metadata_after _ _ _ _
      (set-metadata_after _ _ _ _ (set-metadata_after _ _ _ _ (set-metadata _ _ m)))

pub reconcile-kept :
    (store : IgraStore) (db : Db)
    → shown (run store no_faults reconcile db) ≡ promise store false reconcile (view db)
unfolding run reconcile_profile_cache transaction exec clear_if profile_changed metadata_value
    clear_tables find
reconcile-kept store db = elim (Bool-cases (is_other_profile store (view db).meta)) [
  | inl e ↦ rw e (λ i. (
    ok done,
    record (forget_if true (view db)) { meta = meta-write_profile store db.schema_meta i },
  ))
  | inr e ↦
      rw e (λ i. (ok done, record (view db) { meta = meta-write_profile store db.schema_meta i }))
]
