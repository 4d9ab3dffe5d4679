-- ===== src/Store/Schedule/History.antt =====
-- crates/igra/src/store.rs: the nonces that were in order, and those that were marked, against the
-- expected ones.
use igra_foundry_sdk.Prelude.{
  ℕ, ◌≡◌, refl, ap, subst, Bool, true, false, ◌&&◌, Option, none, some, Result, ok, err, List, [],
  ◌∷◌, ◌==◌, All, Bool-cases, inl, inr, arith, ltb, leb,
}
use igra_foundry_sdk.Prelude.Text.{Text, text_eq, text_eq_iff, text_eq_refl}
use igra_foundry_sdk.Prelude.Words.{u64_max}
use igra_foundry_sdk.Store.Types.{IgraStoreError, NonceOrdering, in_order, stale}
use igra_foundry_sdk.Store.Lifecycle.{IgraStore}
use igra_foundry_sdk.Store.Operation.{Operation, try_classify, mark, Answer}
use igra_foundry_sdk.Store.Operation.View.{
  View, promise, is_free, take_lease, order, order_from, refuse_back, note, expects, put,
}
use igra_foundry_sdk.Prelude.{◌+◌}
use igra_foundry_sdk.Store.Schedule.{has, ordered_after, marked_after}
use igra_foundry_sdk.Store.Schedule.Grown.{AtLeast, Grown, Grown-note, Grown-put, expected-le}

abbrev pub AllAtLeast : View → ℕ → List (Text × ℕ) → Type 0
AllAtLeast v k = All (λ p. AtLeast v p.0 (p.1 + k))

pub AllAtLeast-Grown :
    (v v' : View) (k : ℕ) (ns : List (Text × ℕ))
    → Grown v v'
    → AllAtLeast v k ns
    → AllAtLeast v' k ns
AllAtLeast-Grown v v' k [] g h = tt
AllAtLeast-Grown v v' k ((x, n) ∷ ns) g ((e, f, le), rest) =
    let (d, f', le') = g x e f in
    ((d, f', omega (arith, le, le')), AllAtLeast-Grown v v' k ns g rest)

pub has-AtLeast :
    (v : View) (k : ℕ) (x : Text) (n : ℕ) (ns : List (Text × ℕ))
    → has x n ns ≡ true
    → AllAtLeast v k ns
    → AtLeast v x (n + k)
has-AtLeast v k x n [] h all = absurd (cc h)
has-AtLeast v k x n ((y, m) ∷ ns) h all = elim (Bool-cases (text_eq y x && m == n)) [
  | inl e ↦
      let same : y ≡ x = ground (arith, text_eq_iff y x) in
      let one : m ≡ n = ground arith in
      subst (λ z. AtLeast v z (n + k)) same (subst (λ i. AtLeast v y (i + k)) one all.0)
  | inr e ↦ has-AtLeast v k x n ns (ground arith) all.1
]

-- What is in order is the expected nonce.
abbrev OrderedAt : Text → ℕ → List (Text × ℕ) → Result IgraStoreError NonceOrdering × View → Type 0
OrderedAt sender nonce ns (ok (in_order e), v) = AllAtLeast v 0 ((sender, nonce) ∷ ns)
OrderedAt sender nonce ns (ok (stale e b), v) = AllAtLeast v 0 ns
OrderedAt sender nonce ns (err e, v) = Unit

note-AtLeast :
    (next : Option ℕ) (v : View) (sender : Text) (nonce : ℕ)
    → v.next sender ≡ next
    → (nonce == expects next nonce) ≡ true
    → AtLeast (note next v sender nonce) sender (nonce + 0)
note-AtLeast none v sender nonce e h = (nonce, rw (text_eq_refl sender), omega arith)
note-AtLeast (some d) v sender nonce e h = (d, e, ground arith)

order-OrderedAt :
    (other : Bool) (next : Option ℕ) (v : View) (sender : Text) (nonce : ℕ) (ns : List (Text × ℕ))
    → v.next sender ≡ next
    → AllAtLeast v 0 ns
    → OrderedAt sender nonce ns (order_from next other v sender nonce)
order-OrderedAt other next v sender nonce ns e h =
    let w = note next v sender nonce in
    let rest = AllAtLeast-Grown v w 0 ns (Grown-note next v sender nonce e) h in
    elim (Bool-cases (ltb (expects next nonce) nonce)) [
      | inl gap ↦ rw gap tt
      | inr g ↦ elim (Bool-cases (nonce == expects next nonce)) [
        | inl i ↦ rw (g, i) (note-AtLeast next v sender nonce e i, rest)
        | inr i ↦ rw (g, i) rest
      ]
    ]

abbrev OrderedAfter : Operation → List (Text × ℕ) → Result IgraStoreError Answer × View → Type 0
OrderedAfter op ns (r, v) = AllAtLeast v 0 (ordered_after op r ns)

refuse_back-OrderedAfter :
    (sender owner_id : Text) (nonce : ℕ) (hash : Text) (n lease_ms : ℕ) (v : View)
    (ns : List (Text × ℕ)) (r : Result IgraStoreError NonceOrdering × View)
    → AllAtLeast v 0 ns
    → OrderedAt sender nonce ns r
    → OrderedAfter (try_classify sender owner_id nonce hash n lease_ms) ns (refuse_back v r)
refuse_back-OrderedAfter sender owner_id nonce hash n lease_ms v ns (ok (in_order e), d) h o = o
refuse_back-OrderedAfter sender owner_id nonce hash n lease_ms v ns (ok (stale e b), d) h o = o
refuse_back-OrderedAfter sender owner_id nonce hash n lease_ms v ns (err e, d) h o = h

pub classify-OrderedAfter :
    (sender owner_id : Text) (nonce : ℕ) (hash : Text) (n lease_ms : ℕ) (store : IgraStore)
    (other : Bool) (v : View) (ns : List (Text × ℕ))
    → AllAtLeast v 0 ns
    → OrderedAfter
        (try_classify sender owner_id nonce hash n lease_ms)
        ns
        (promise store other (try_classify sender owner_id nonce hash n lease_ms) v)
classify-OrderedAfter sender owner_id nonce hash n lease_ms store other v ns h =
    let w = take_lease v sender owner_id n lease_ms in
    elim (Bool-cases (is_free (v.lease sender) owner_id n)) [
      | inl f ↦ rw f (
          refuse_back-OrderedAfter sender owner_id nonce hash n lease_ms v ns
            (order other w sender nonce) h
            (order-OrderedAt other (w.next sender) w sender nonce ns refl h))
      | inr f ↦ rw f h
    ]

-- A nonce that was in order is behind the expected one once it is marked.
abbrev MarkedAfter : Operation → List (Text × ℕ) → Result IgraStoreError Answer × View → Type 0
MarkedAfter op ns (r, v) = AllAtLeast v 1 (marked_after op r ns)

pub mark-MarkedAfter :
    (sender : Text) (nonce n : ℕ) (store : IgraStore) (other : Bool) (v : View)
    (ns : List (Text × ℕ))
    → AtLeast v sender (nonce + 0)
    → AllAtLeast v 1 ns
    → MarkedAfter (mark sender nonce n) ns (promise store other (mark sender nonce n) v)
mark-MarkedAfter sender nonce n store other v ns (e, f, le) h =
    elim (Bool-cases (leb u64_max nonce)) [
      | inl over ↦ rw over h
      | inr under ↦ elim (Bool-cases (expects (v.next sender) nonce == nonce)) [
        | inl now ↦
            rw (under, now)
              (
                (nonce + 1, rw (text_eq_refl sender), omega arith),
                AllAtLeast-Grown v (record v { next = put sender (nonce + 1) v.next }) 1 ns
                    (Grown-put v sender (nonce + 1) (λ d. expected-le (v.next sender) nonce d now))
                    h,
              )
        | inr past ↦
            let apart : (e == nonce) ≡ false = cc (past, ap (λ o. expects o nonce == nonce) f) in
            rw (under, past) ((e, f, ground arith), h)
      ]
    ]
