-- ===== src/Store/Operation/View.antt =====
-- crates/igra/src/store.rs: what the store promises, without tables, rows, order, casts or SQL.
use igra_foundry_sdk.Prelude.{
  ℕ, ◌+◌, ◌≡◌, ◌≢◌, ◌↔◌, Bool, true, false, ◌||◌, Option, none, some, Result, ok, err, ltb, leb,
  ◌==◌, if◌then◌else◌, find, upsert, find-upsert, Table, Bool-cases, inl, inr, upsert, find-upsert,
  Table,
}
use igra_foundry_sdk.Prelude.Text.{Text, text_eq, decimal}
use igra_foundry_sdk.Prelude.Words.{as_i64, as_u64, saturating_add, u64_max}
use igra_foundry_sdk.Store.Types.{
  IgraStoreError, blocked_gap, nonce_overflow, NonceOrdering, in_order, stale,
}
use igra_foundry_sdk.Store.Db.{Db, TxRow, NonceRow, LockRow}
use igra_foundry_sdk.Store.Lifecycle.{IgraStore, map_option, row_of, decode_row}
use igra_foundry_sdk.Store.Profile.{
  profile_chain_id_key, profile_kaspa_network_key, profile_el_rpc_fingerprint_key,
  profile_kaspa_rpc_fingerprint_key, schema_version_key, schema_version_value, metadata_changed,
  differs,
}
use igra_foundry_sdk.Store.Operation.{
  Operation, try_lock, try_classify, release, classify, mark, persist, load, set_version, reconcile,
  Answer, done, took, ordered, ordered_if_free, loaded, Outcome,
}

-- Who holds a sender, and until when.
pub record Lease : Type 0 where
  pub holder : Text
  pub until : ℕ

pub record View : Type 0 where
  pub lease : Text → Option Lease
  pub next : Text → Option ℕ
  pub tx : Text → Option TxRow
  pub meta : Text → Option Text

abbrev pub lease_of : LockRow → Lease
lease_of row = record { holder = row.owner_id; until = as_u64 row.expires_at_ms }

abbrev pub next_of : NonceRow → ℕ
next_of row = as_u64 row.next_expected_nonce

-- The view forgets the order of the rows and when they were last touched.
abbrev pub view : Db → View
view db = record {
  lease = λ s. map_option lease_of (find s db.sender_locks);
  next = λ s. map_option next_of (find s db.sender_nonce_state);
  tx = λ h. find h db.tx_map;
  meta = λ k. find k db.schema_meta;
}

abbrev pub put : {A : Type 0} → Text → A → (Text → Option A) → Text → Option A
put k a f j = if text_eq k j then some a else f j

abbrev pub is_free : Option Lease → Text → ℕ → Bool
is_free none owner_id now = true
is_free (some l) owner_id now = text_eq l.holder owner_id || ltb l.until now

abbrev pub take_lease : View → Text → Text → ℕ → ℕ → View
take_lease v sender owner_id now lease_ms = record v {
  lease = put sender (record { holder = owner_id; until = saturating_add now lease_ms }) v.lease;
}

-- A first nonce is the expected one, and is recorded; a nonce too high is refused.
abbrev pub expects : Option ℕ → ℕ → ℕ
expects none nonce = nonce
expects (some e) nonce = e

abbrev pub note : Option ℕ → View → Text → ℕ → View
note none v sender nonce = record v { next = put sender nonce v.next }
note (some e) v sender nonce = v

-- `other` says whether another transaction is known with the sender and the nonce.
abbrev pub order_from :
    Option ℕ → Bool → View → Text → ℕ → Result IgraStoreError NonceOrdering × View
order_from next other v sender nonce =
    let e = expects next nonce in
    if ltb e nonce
    then (err (blocked_gap e nonce), v)
    else if nonce == e
    then (ok (in_order e), note next v sender nonce)
    else (ok (stale e other), note next v sender nonce)

abbrev pub order : Bool → View → Text → ℕ → Result IgraStoreError NonceOrdering × View
order other v sender nonce = order_from (v.next sender) other v sender nonce

abbrev pub refuse_back :
    View → Result IgraStoreError NonceOrdering × View → Result IgraStoreError Answer × View
refuse_back v (ok o, v') = (ok (ordered_if_free (some o)), v')
refuse_back v (err e, v') = (err e, v)

abbrev pub unless_held : Text → Option Lease → Option Lease
unless_held owner_id none = none
unless_held owner_id (some l) = if text_eq l.holder owner_id then none else some l

abbrev pub ordered_view :
    Result IgraStoreError NonceOrdering × View → Result IgraStoreError Answer × View
ordered_view (ok o, v) = (ok (ordered o), v)
ordered_view (err e, v) = (err e, v)

abbrev pub loaded_view :
    View
    → Result IgraStoreError (Option igra_foundry_sdk.Store.Types.TxMapRecord)
    → Result IgraStoreError Answer × View
loaded_view v (ok r) = (ok (loaded r), v)
loaded_view v (err e) = (err e, v)

-- `None` takes a setting away.
abbrev pub set : Text → Option Text → (Text → Option Text) → Text → Option Text
set k o f j = if text_eq k j then o else f j

abbrev pub is_other_profile : IgraStore → (Text → Option Text) → Bool
is_other_profile store meta =
    differs (meta profile_chain_id_key) (decimal store.expected_el_chain_id)
    || differs (meta profile_kaspa_network_key) store.kaspa_network
    || metadata_changed (meta profile_el_rpc_fingerprint_key) store.el_rpc_fingerprint
    || metadata_changed (meta profile_kaspa_rpc_fingerprint_key) store.kaspa_rpc_fingerprint

abbrev pub with_profile : IgraStore → (Text → Option Text) → Text → Option Text
with_profile store meta = set profile_kaspa_rpc_fingerprint_key store.kaspa_rpc_fingerprint (
    set profile_el_rpc_fingerprint_key store.el_rpc_fingerprint (
      set profile_kaspa_network_key (some store.kaspa_network)
        (set profile_chain_id_key (some (decimal store.expected_el_chain_id)) meta)))

-- Another profile forgets every transaction, nonce and lease.
abbrev pub forget_if : Bool → View → View
forget_if true v = record v { lease = λ s. none; next = λ s. none; tx = λ h. none }
forget_if false v = v

abbrev pub promise : IgraStore → Bool → Operation → View → Result IgraStoreError Answer × View
promise store other (try_lock sender owner_id now lease_ms) v =
    if is_free (v.lease sender) owner_id now
    then (ok (took true), take_lease v sender owner_id now lease_ms)
    else (ok (took false), v)
promise store other (try_classify sender owner_id nonce l2_tx_hash now lease_ms) v =
    if is_free (v.lease sender) owner_id now
    then refuse_back v (order other (take_lease v sender owner_id now lease_ms) sender nonce)
    else (ok (ordered_if_free none), v)
promise store other (release sender owner_id) v = (
  ok done,
  record v {
    lease = λ s. if text_eq sender s then unless_held owner_id (v.lease s) else v.lease s;
  },
)
promise store other (classify sender nonce now) v = ordered_view (order false v sender nonce)
promise store other (mark sender nonce now) v =
    if leb u64_max nonce
    then (err (nonce_overflow sender nonce), v)
    else if expects (v.next sender) nonce == nonce
    then (ok done, record v { next = put sender (nonce + 1) v.next })
    else (ok done, v)
promise store other (persist update now) v = (
  ok done,
  record v { tx = put update.l2_tx_hash (row_of store update (v.tx update.l2_tx_hash) now) v.tx },
)
promise store other (load l2_tx_hash) v = loaded_view v (decode_row l2_tx_hash (v.tx l2_tx_hash))
promise store other set_version v =
    (ok done, record v { meta = put schema_version_key schema_version_value v.meta })
promise store other reconcile v =
    let v' = forget_if (is_other_profile store v.meta) v in
    (ok done, record v' { meta = with_profile store v'.meta })

-- Another hash than `incoming` is known with the sender and the nonce.
abbrev pub IsTaken : View → Text → ℕ → Text → Type 0
IsTaken v sender nonce incoming = ∥ (
    (h : Text) × (row : TxRow) × (v.tx h ≡ some row)
    × (row.sender ≡ sender)
    × (row.l2_nonce ≡ as_i64 nonce)
    × (h ≢ incoming)) ∥₁

-- What `promise` is told of the other transactions is true.
abbrev IsTold : Operation → View → Bool → Type 0
IsTold (try_classify sender owner_id nonce l2_tx_hash now lease_ms) v other =
    (other ≡ true) ↔ IsTaken v sender nonce l2_tx_hash
IsTold _ v other = Unit

-- The contract of an operation: an answer and a view after it, told from the view before.
pub record Keeps (store : IgraStore) (op : Operation) (v : View) (r : Result IgraStoreError Answer)
    (v' : View) : Type 0 where
  pub other : Bool
  pub told : IsTold op v other
  pub kept : (r, v') ≡ promise store other op v

pub find-put :
    {A B : Type 0} (f : A → B) (k : Text) (a : A) (m : Table A) (j : Text)
    → map_option f (find j (upsert k a m)) ≡ put k (f a) (λ i. map_option f (find i m)) j
find-put f k a m j =
    rw (find-upsert k j a m) (elim (Bool-cases (text_eq k j)) [ inl e ↦ rw e | inr e ↦ rw e ])

abbrev pub shown_order :
    Result IgraStoreError (NonceOrdering × Db) → Db → Result IgraStoreError NonceOrdering × View
shown_order (ok (o, db')) db = (ok o, view db')
shown_order (err e) db = (err e, view db)

abbrev pub shown : Outcome → Result IgraStoreError Answer × View
shown (r, db) = (r, view db)
