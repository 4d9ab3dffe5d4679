-- ===== src/Store/Schedule/Holding.antt =====
-- crates/igra/src/store.rs: the leases that tasks hold, under each operation of the view.
use igra_foundry_sdk.Prelude.{
  ℕ, ◌≡◌, refl, sym, subst, Bool, true, false, Option, Result, ok, err, List, ◌==◌, All, Bool-cases,
  inl, inr, ltb, leb,
}
use igra_foundry_sdk.Prelude.Text.{Text}
use igra_foundry_sdk.Prelude.Words.{saturating_add, u64_max}
use igra_foundry_sdk.Store.Types.{IgraStoreError, TxMapRecord}
use igra_foundry_sdk.Store.Lifecycle.{IgraStore}
use igra_foundry_sdk.Store.Operation.{
  Operation, try_lock, try_classify, release, classify, mark, persist, load, set_version, reconcile,
  Answer,
}
use igra_foundry_sdk.Store.Operation.View.{
  View, promise, is_other_profile, is_free, take_lease, order_from, refuse_back, note, expects,
  ordered_view, loaded_view,
}
use igra_foundry_sdk.Store.Schedule.{Grant, granted, grants_after}
use igra_foundry_sdk.Store.Schedule.Leases.{
  Live, All-Live, All-dropped, granted-Live, release-Live, note-lease,
}

abbrev pub Kept : Operation → ℕ → List Grant → Result IgraStoreError Answer × View → Type 0
Kept op now gs (r, v) = All (Live v now) (grants_after op r gs)

-- An ordering under the new lease grants it, a gap keeps what was.
ordered-Kept :
    (other : Bool) (next : Option ℕ) (v : View) (sender owner_id : Text) (nonce : ℕ) (hash : Text)
    (now lease_ms : ℕ) (gs : List Grant)
    → is_free (v.lease sender) owner_id now ≡ true
    → All (Live v now) gs
    → Kept (try_classify sender owner_id nonce hash now lease_ms) now gs (
        refuse_back v
          (order_from next other (take_lease v sender owner_id now lease_ms) sender nonce))
ordered-Kept other next v sender owner_id nonce hash now lease_ms gs free h =
    let taken = take_lease v sender owner_id now lease_ms in
    let e = expects next nonce in
    let kept =
      All-Live taken (note next taken sender nonce) now
        (granted sender owner_id (saturating_add now lease_ms) gs)
        (sym (note-lease next taken sender nonce))
        (granted-Live v sender owner_id now lease_ms gs free h) in
    elim (Bool-cases (ltb e nonce)) [
      | inl gap ↦ rw gap h
      | inr g ↦ elim (Bool-cases (nonce == e)) [ inl i ↦ rw (g, i) kept | inr i ↦ rw (g, i) kept ]
    ]

classified-Kept :
    (next : Option ℕ) (v : View) (sender : Text) (nonce n now : ℕ) (gs : List Grant)
    → All (Live v now) gs
    → Kept (classify sender nonce n) now gs (ordered_view (order_from next false v sender nonce))
classified-Kept next v sender nonce n now gs h =
    let e = expects next nonce in
    let kept =
      All-Live v (note next v sender nonce) now gs (sym (note-lease next v sender nonce)) h in
    elim (Bool-cases (ltb e nonce)) [
      | inl gap ↦ rw gap h
      | inr g ↦ elim (Bool-cases (nonce == e)) [ inl i ↦ rw (g, i) kept | inr i ↦ rw (g, i) kept ]
    ]

loaded-Kept :
    (hash : Text) (v : View) (now : ℕ) (gs : List Grant)
    (r : Result IgraStoreError (Option TxMapRecord))
    → All (Live v now) gs
    → Kept (load hash) now gs (loaded_view v r)
loaded-Kept hash v now gs (ok r) h = h
loaded-Kept hash v now gs (err e) h = h

-- The clock of an operation that takes a lease, and the one operation that breaks leases.
abbrev pub IsAt : ℕ → IgraStore → View → Operation → Type 0
IsAt now store v (try_lock sender owner_id n lease_ms) = now ≡ n
IsAt now store v (try_classify sender owner_id nonce l2_tx_hash n lease_ms) = now ≡ n
IsAt now store v reconcile = is_other_profile store v.meta ≡ false
IsAt now store v _ = Unit

pub promise-Kept :
    (store : IgraStore) (other : Bool) (op : Operation) (v : View) (now : ℕ) (gs : List Grant)
    → IsAt now store v op
    → All (Live v now) gs
    → Kept op now gs (promise store other op v)
promise-Kept store other (try_lock sender owner_id n lease_ms) v now gs at h =
    subst
      (λ m.
        Kept (try_lock sender owner_id m lease_ms) now gs
          (promise store other (try_lock sender owner_id m lease_ms) v))
      at
      (elim (Bool-cases (is_free (v.lease sender) owner_id now)) [
        | inl free ↦ rw free (granted-Live v sender owner_id now lease_ms gs free h)
        | inr held ↦ rw held h
      ])
promise-Kept store other (try_classify sender owner_id nonce hash n lease_ms) v now gs at h =
    subst
      (λ m.
        Kept (try_classify sender owner_id nonce hash m lease_ms) now gs
          (promise store other (try_classify sender owner_id nonce hash m lease_ms) v))
      at
      (elim (Bool-cases (is_free (v.lease sender) owner_id now)) [
        | inl free ↦
            rw free (
              ordered-Kept other (v.next sender) v sender owner_id nonce hash now lease_ms gs free
                h)
        | inr held ↦ rw held h
      ])
promise-Kept store other (release sender owner_id) v now gs at h =
    All-dropped (Live v now) _ sender owner_id gs (release-Live v sender owner_id now) h
promise-Kept store other (classify sender nonce n) v now gs at h =
    classified-Kept (v.next sender) v sender nonce n now gs h
promise-Kept store other (mark sender nonce n) v now gs at h =
    elim (Bool-cases (leb u64_max nonce)) [
      | inl e ↦ rw e h
      | inr e ↦ elim (Bool-cases (expects (v.next sender) nonce == nonce)) [
        | inl f ↦ rw (e, f) (All-Live v _ now gs refl h)
        | inr f ↦ rw (e, f) h
      ]
    ]
promise-Kept store other (persist update n) v now gs at h = All-Live v _ now gs refl h
promise-Kept store other (load hash) v now gs at h = loaded-Kept hash v now gs _ h
promise-Kept store other set_version v now gs at h = All-Live v _ now gs refl h
promise-Kept store other reconcile v now gs at h = rw at (All-Live v _ now gs refl h)
