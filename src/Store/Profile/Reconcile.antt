-- ===== src/Store/Profile/Reconcile.antt =====
-- crates/igra/src/store.rs: the tables under the profiles of two stores.
use igra_foundry_sdk.Prelude.{
  ◌≡◌, Bool, false, not, ◌&&◌, ◌∙◌, ap, Option, none, some, [], arith, find-upsert,
  find-delete_where_key, Table, if◌then◌else◌, Bool-cases, inl, inr,
}
use igra_foundry_sdk.Prelude.Text.{
  Text, text_eq, text_eq_iff, text_eq_refl, option_text_eq, option_text_eq_refl, decimal,
}
use igra_foundry_sdk.Store.Db.{Db, no_faults, exec, transaction}
use igra_foundry_sdk.Store.Lifecycle.{IgraStore}
use igra_foundry_sdk.Store.Profile.{
  metadata_value, set_metadata_value, metadata_changed, differs, profile_changed, write_profile,
  reconcile_profile_cache, profile_chain_id_key, profile_kaspa_network_key,
  profile_el_rpc_fingerprint_key, profile_kaspa_rpc_fingerprint_key,
}

pub metadata-set :
    (meta : Table Text) (key j : Text) (v : Option Text)
    → metadata_value (set_metadata_value meta key v) j
      ≡ (if text_eq key j then v else metadata_value meta j)
unfolding metadata_value set_metadata_value
metadata-set meta key j (some value) = find-upsert key j value meta
metadata-set meta key j none =
    ground (
      arith,
      text_eq_iff key j,
      text_eq_iff j key,
      find-delete_where_key (λ k. text_eq k key) j meta,
    )

-- The four keys of the profile after a write.
metadata-write_profile :
    (store : IgraStore) (meta : Table Text)
    → (metadata_value (write_profile store meta) profile_chain_id_key
        ≡ some (decimal store.expected_el_chain_id))
      × (metadata_value (write_profile store meta) profile_kaspa_network_key
          ≡ some store.kaspa_network)
      × (metadata_value (write_profile store meta) profile_el_rpc_fingerprint_key
          ≡ store.el_rpc_fingerprint)
      × (metadata_value (write_profile store meta) profile_kaspa_rpc_fingerprint_key
          ≡ store.kaspa_rpc_fingerprint)
unfolding write_profile text_eq
metadata-write_profile store meta =
    (simp metadata-set, simp metadata-set, simp metadata-set, simp metadata-set)

profile_unchanged-write_profile :
    (store : IgraStore) (meta : Table Text)
    → profile_changed store (write_profile store meta) ≡ false
unfolding profile_changed metadata_changed differs
profile_unchanged-write_profile store meta =
    let (c, n, e, k) = metadata-write_profile store meta in
    rw (
      c,
      n,
      e,
      k,
      text_eq_refl (decimal store.expected_el_chain_id),
      text_eq_refl store.kaspa_network,
      option_text_eq_refl store.el_rpc_fingerprint,
      option_text_eq_refl store.kaspa_rpc_fingerprint,
    )

-- Two stores have one profile when chain, network and the two endpoints agree.
abbrev pub same_profile : IgraStore → IgraStore → Bool
same_profile a b =
    text_eq (decimal a.expected_el_chain_id) (decimal b.expected_el_chain_id)
    && (text_eq a.kaspa_network b.kaspa_network
        && (option_text_eq a.el_rpc_fingerprint b.el_rpc_fingerprint
            && option_text_eq a.kaspa_rpc_fingerprint b.kaspa_rpc_fingerprint))

profile_changed-write_profile :
    (first second : IgraStore) (meta : Table Text)
    → profile_changed second (write_profile first meta) ≡ not (same_profile first second)
unfolding profile_changed metadata_changed differs
profile_changed-write_profile first second meta =
    let (c, n, e, k) = metadata-write_profile first meta in rw (c, n, e, k) (ground arith)

reconcile_tables :
    (store : IgraStore) (db : Db)
    → (reconcile_profile_cache store no_faults db).1 ≡ record {
      schema_meta = write_profile store db.schema_meta;
      tx_map = if profile_changed store db.schema_meta then [] else db.tx_map;
      sender_nonce_state =
          if profile_changed store db.schema_meta then [] else db.sender_nonce_state;
      sender_locks = if profile_changed store db.schema_meta then [] else db.sender_locks;
    }
unfolding reconcile_profile_cache transaction exec
reconcile_tables store db = elim (Bool-cases (profile_changed store db.schema_meta)) [
  | inl changed ↦ rw changed
  | inr same ↦ rw same
]

kept :
    {A : Type 0} (changed same : Bool) (rows : Table A)
    → changed ≡ not same
    → (if changed then [] else rows) ≡ (if same then rows else [])
kept changed same rows h = ground arith

-- When no statement fails, the reconciliation that opens a second store on the file of a first one
-- keeps transactions, nonces and locks as they are when the two have one profile (chain, network
-- and both endpoint fingerprints), and deletes all of them otherwise. Between the two
-- reconciliations anything may have happened to the three tables, but not to the settings.
pub reopen_lem :
    (first second : IgraStore) (db db₁ : Db)
    → db₁.schema_meta ≡ (reconcile_profile_cache first no_faults db).1.schema_meta
    → let db₂ = (reconcile_profile_cache second no_faults db₁).1 in
      (db₂.tx_map ≡ (if same_profile first second then db₁.tx_map else []))
      × (db₂.sender_nonce_state
          ≡ (if same_profile first second then db₁.sender_nonce_state else []))
      × (db₂.sender_locks ≡ (if same_profile first second then db₁.sender_locks else []))
reopen_lem first second db db₁ kept_meta =
    let whole = reconcile_tables second db₁ in
    let meta : db₁.schema_meta ≡ write_profile first db.schema_meta =
      kept_meta ∙ ap (λ d. d.schema_meta) (reconcile_tables first db) in
    let test : profile_changed second db₁.schema_meta ≡ not (same_profile first second) =
      ap (profile_changed second) meta
      ∙ profile_changed-write_profile first second db.schema_meta in
    (
      ap (λ d. d.tx_map) whole ∙ kept _ _ _ test,
      ap (λ d. d.sender_nonce_state) whole ∙ kept _ _ _ test,
      ap (λ d. d.sender_locks) whole ∙ kept _ _ _ test,
    )
