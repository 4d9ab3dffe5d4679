-- ===== src/Store/Schedule/Grown.antt =====
-- crates/igra/src/store.rs: the expected nonces, under each operation of the view.
use igra_foundry_sdk.Prelude.{
  ℕ, ◌≤◌, ◌≡◌, refl, ap, Bool, true, false, Option, none, some, Result, ok, err, ◌==◌, Bool-cases,
  inl, inr, arith, ltb, leb,
}
use igra_foundry_sdk.Prelude.Text.{Text, text_eq, text_eq_sound}
use igra_foundry_sdk.Prelude.Words.{u64_max}
use igra_foundry_sdk.Store.Types.{IgraStoreError, NonceOrdering, TxMapRecord}
use igra_foundry_sdk.Store.Lifecycle.{IgraStore}
use igra_foundry_sdk.Store.Operation.{
  Operation, try_lock, try_classify, release, classify, mark, persist, load, set_version, reconcile,
}
use igra_foundry_sdk.Store.Operation.View.{
  View, promise, is_free, take_lease, order, order_from, refuse_back, note, expects, put,
  ordered_view, loaded_view,
}
use igra_foundry_sdk.Store.Schedule.Holding.{IsAt}
use igra_foundry_sdk.Prelude.{◌+◌}

-- The expected nonce of a sender is known, and is `n` or more.
abbrev pub AtLeast : View → Text → ℕ → Type 0
AtLeast v x n = (e : ℕ) × (v.next x ≡ some e) × (n ≤ e)

-- What was expected stays known and does not go down.
abbrev pub Grown : View → View → Type 0
Grown v v' = (x : Text) (e : ℕ) → v.next x ≡ some e → AtLeast v' x e

unchanged :
    (next : Text → Option ℕ) (x : Text) (e : ℕ)
    → next x ≡ some e
    → (d : ℕ) × (next x ≡ some d) × (e ≤ d)
unchanged next x e h = (e, h, omega arith)

pub Grown-put :
    (v : View) (sender : Text) (n : ℕ)
    → ((e : ℕ) → v.next sender ≡ some e → e ≤ n)
    → Grown v (record v { next = put sender n v.next })
Grown-put v sender n above x e h = elim (Bool-cases (text_eq sender x)) [
  | inl same ↦
      let i : sender ≡ x = text_eq_sound sender x same in
      (n, rw same, above e (cc (ap v.next i, h)))
  | inr other ↦ (e, rw other h, omega arith)
]

pub Grown-note :
    (next : Option ℕ) (v : View) (sender : Text) (nonce : ℕ)
    → v.next sender ≡ next
    → Grown v (note next v sender nonce)
Grown-note none v sender nonce e = Grown-put v sender nonce (λ e' h. absurd (cc (e, h)))
Grown-note (some d) v sender nonce e = unchanged v.next

abbrev GrownTo : {A : Type 0} → View → Result IgraStoreError A × View → Type 0
GrownTo v (r, v') = Grown v v'

order-Grown :
    (other : Bool) (next : Option ℕ) (v : View) (sender : Text) (nonce : ℕ)
    → v.next sender ≡ next
    → GrownTo v (order_from next other v sender nonce)
order-Grown other next v sender nonce e = elim (Bool-cases (ltb (expects next nonce) nonce)) [
  | inl gap ↦ rw gap (unchanged v.next)
  | inr g ↦ elim (Bool-cases (nonce == expects next nonce)) [
    | inl i ↦ rw (g, i) (Grown-note next v sender nonce e)
    | inr i ↦ rw (g, i) (Grown-note next v sender nonce e)
  ]
]

ordered_view-Grown :
    (v : View) (r : Result IgraStoreError NonceOrdering × View)
    → GrownTo v r
    → GrownTo v (ordered_view r)
ordered_view-Grown v (ok o, d) h = h
ordered_view-Grown v (err e, d) h = h

refuse_back-Grown :
    (v w : View) (r : Result IgraStoreError NonceOrdering × View)
    → v.next ≡ w.next
    → GrownTo w r
    → GrownTo v (refuse_back v r)
refuse_back-Grown v w (ok o, d) e h x n f = h x n (cc (ap (λ g. g x) e, f))
refuse_back-Grown v w (err k, d) e h x n f = unchanged v.next x n f

loaded_view-Grown :
    (v : View) (r : Result IgraStoreError (Option TxMapRecord)) → GrownTo v (loaded_view v r)
loaded_view-Grown v (ok r) = unchanged v.next
loaded_view-Grown v (err e) = unchanged v.next

pub expected-le :
    (next : Option ℕ) (nonce e : ℕ)
    → (expects next nonce == nonce) ≡ true
    → next ≡ some e
    → e ≤ nonce + 1
expected-le none nonce e h f = absurd (cc f)
expected-le (some d) nonce e h f = ground arith

pub promise-Grown :
    (store : IgraStore) (other : Bool) (op : Operation) (v : View) (now : ℕ)
    → IsAt now store v op
    → GrownTo v (promise store other op v)
promise-Grown store other (try_lock sender owner_id n lease_ms) v now at =
    elim (Bool-cases (is_free (v.lease sender) owner_id n)) [
      | inl f ↦ rw f (unchanged v.next)
      | inr f ↦ rw f (unchanged v.next)
    ]
promise-Grown store other (try_classify sender owner_id nonce hash n lease_ms) v now at =
    let w = take_lease v sender owner_id n lease_ms in
    elim (Bool-cases (is_free (v.lease sender) owner_id n)) [
      | inl f ↦ rw f (
          refuse_back-Grown v w (order other w sender nonce) refl
            (order-Grown other (w.next sender) w sender nonce refl))
      | inr f ↦ rw f (unchanged v.next)
    ]
promise-Grown store other (release sender owner_id) v now at = unchanged v.next
promise-Grown store other (classify sender nonce n) v now at =
    ordered_view-Grown v (order false v sender nonce)
      (order-Grown false (v.next sender) v sender nonce refl)
promise-Grown store other (mark sender nonce n) v now at = elim (Bool-cases (leb u64_max nonce)) [
  | inl e ↦ rw e (unchanged v.next)
  | inr e ↦ elim (Bool-cases (expects (v.next sender) nonce == nonce)) [
    | inl f ↦
        rw (e, f) (Grown-put v sender (nonce + 1) (λ d. expected-le (v.next sender) nonce d f))
    | inr f ↦ rw (e, f) (unchanged v.next)
  ]
]
promise-Grown store other (persist update n) v now at = unchanged v.next
promise-Grown store other (load hash) v now at = loaded_view-Grown v _
promise-Grown store other set_version v now at = unchanged v.next
promise-Grown store other reconcile v now at = rw at (unchanged v.next)
