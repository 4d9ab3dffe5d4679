-- ===== src/Store/Schedule/Once.antt =====
-- crates/igra/src/store.rs: a nonce that was submitted in order is never in order again.
use igra_foundry_sdk.Prelude.{
  ℕ, ◌≤◌, ◌≡◌, ap, sym, subst, Bool, true, Option, none, some, Result, ok, err, List, find,
  Bool-cases, inl, inr, arith,
}
use igra_foundry_sdk.Prelude.Text.{Text}
use igra_foundry_sdk.Prelude.Words.{u64_max}
use igra_foundry_sdk.Store.Types.{IgraStoreError, in_order, stale}
use igra_foundry_sdk.Store.Db.{Db, Faults}
use igra_foundry_sdk.Store.Lifecycle.{IgraStore, map_option}
use igra_foundry_sdk.Store.Operation.{
  Operation, try_lock, try_classify, release, classify, mark, persist, load, set_version, reconcile,
  Answer, ordered_if_free, run,
}
use igra_foundry_sdk.Store.Operation.View.{
  View, next_of, view, promise, Keeps, is_free, take_lease, order_from, refuse_back,
}
use igra_foundry_sdk.Store.Schedule.{
  System, Allowed, ran, Step, wait, act, prune, Reach, start, later,
}
use igra_foundry_sdk.Prelude.{◌⊎◌}
use igra_foundry_sdk.Store.Types.{SqliteFailure, sqlite}
use igra_foundry_sdk.Store.Tables.Reachable.{Reachable, run-Refines}
use igra_foundry_sdk.Store.Schedule.Holding.{IsAt}
use igra_foundry_sdk.Prelude.{◌+◌, ◌≢◌}
use igra_foundry_sdk.Store.Schedule.{has, ordered_after, marked_after}
use igra_foundry_sdk.Store.Schedule.Grown.{AtLeast, Grown, promise-Grown}
use igra_foundry_sdk.Store.Schedule.Exclusive.{Reach-Reachable, prune-SameSenders}
use igra_foundry_sdk.Store.Schedule.History.{
  AllAtLeast, AllAtLeast-Grown, has-AtLeast, classify-OrderedAfter, mark-MarkedAfter,
}

abbrev Behind : View → List (Text × ℕ) → List (Text × ℕ) → Type 0
Behind v os ms = AllAtLeast v 0 os × AllAtLeast v 1 ms

abbrev BehindAfter :
    Operation → List (Text × ℕ) → List (Text × ℕ) → Result IgraStoreError Answer × View → Type 0
BehindAfter op os ms (r, v) = Behind v (ordered_after op r os) (marked_after op r ms)

Behind-Grown :
    (v v' : View) (os ms : List (Text × ℕ)) → Grown v v' → Behind v os ms → Behind v' os ms
Behind-Grown v v' os ms g (h, k) = (AllAtLeast-Grown v v' 0 os g h, AllAtLeast-Grown v v' 1 ms g k)

still-Behind :
    (store : IgraStore) (other : Bool) (op : Operation) (s : System) (v : View)
    → IsAt s.now store v op
    → Behind v s.ordered s.marked
    → Behind (promise store other op v).1 s.ordered s.marked
still-Behind store other op s v a h =
    Behind-Grown v (promise store other op v).1 s.ordered s.marked
      (promise-Grown store other op v s.now a) h

promise-Behind :
    (store : IgraStore) (other : Bool) (op : Operation) (s : System)
    → Allowed s store op
    → Behind (view s.db) s.ordered s.marked
    → BehindAfter op s.ordered s.marked (promise store other op (view s.db))
promise-Behind store other (try_lock sender owner_id n lease_ms) s a h =
    still-Behind store other (try_lock sender owner_id n lease_ms) s (view s.db) a h
promise-Behind store other (try_classify sender owner_id nonce hash n lease_ms) s a h = (
  classify-OrderedAfter sender owner_id nonce hash n lease_ms store other (view s.db) s.ordered h.0,
  (still-Behind store other (try_classify sender owner_id nonce hash n lease_ms) s (view s.db) a
      h).1,
)
promise-Behind store other (release sender owner_id) s a h =
    still-Behind store other (release sender owner_id) s (view s.db) tt h
promise-Behind store other (classify sender nonce n) s a h =
    still-Behind store other (classify sender nonce n) s (view s.db) tt h
promise-Behind store other (mark sender nonce n) s a h = (
  (still-Behind store other (mark sender nonce n) s (view s.db) tt h).0,
  mark-MarkedAfter sender nonce n store other (view s.db) s.marked
      (has-AtLeast (view s.db) 0 sender nonce s.ordered a h.0) h.1,
)
promise-Behind store other (persist update n) s a h =
    still-Behind store other (persist update n) s (view s.db) tt h
promise-Behind store other (load hash) s a h =
    still-Behind store other (load hash) s (view s.db) tt h
promise-Behind store other set_version s a h =
    still-Behind store other set_version s (view s.db) tt h
promise-Behind store other reconcile s a h = still-Behind store other reconcile s (view s.db) a h

failed-Behind :
    (op : Operation) (v : View) (os ms : List (Text × ℕ)) (e : IgraStoreError)
    → Behind v os ms
    → BehindAfter op os ms (err e, v)
failed-Behind (try_lock sender owner_id n lease_ms) v os ms e h = h
failed-Behind (try_classify sender owner_id nonce hash n lease_ms) v os ms e h = h
failed-Behind (release sender owner_id) v os ms e h = h
failed-Behind (classify sender nonce n) v os ms e h = h
failed-Behind (mark sender nonce n) v os ms e h = h
failed-Behind (persist update n) v os ms e h = h
failed-Behind (load hash) v os ms e h = h
failed-Behind set_version v os ms e h = h
failed-Behind reconcile v os ms e h = h

abbrev AllBehind : System → Type 0
AllBehind s = Behind (view s.db) s.ordered s.marked

run-AllBehind :
    (s : System) (op : Operation) (store : IgraStore) (o : Result IgraStoreError Answer × Db)
    → Allowed s store op
    → (Keeps store op (view s.db) o.0 (view o.1)
        ⊎ ((f : SqliteFailure) × (o ≡ (err (sqlite f), s.db))))
    → AllBehind s
    → AllBehind (ran s op o)
run-AllBehind s op store o a (inl k) h =
    subst (BehindAfter op s.ordered s.marked) (sym k.kept) (promise-Behind store k.other op s a h)
run-AllBehind s op store o a (inr (f, e)) h =
    subst (λ p. AllBehind (ran s op p)) (sym e)
      (failed-Behind op (view s.db) s.ordered s.marked (sqlite f) h)

nonces-Grown : (d e : Db) → e.sender_nonce_state ≡ d.sender_nonce_state → Grown (view d) (view e)
nonces-Grown d e same x n f = (n, cc (ap (λ m. map_option next_of (find x m)) same, f), omega arith)

Step-AllBehind : {s t : System} → Reachable s.db → Step s t → AllBehind s → AllBehind t
Step-AllBehind {s} r (wait now le) h = h
Step-AllBehind {s} r (act store faults op fits allowed) h =
    run-AllBehind s op store (run store faults op s.db) allowed (run-Refines store faults op r fits)
      h
Step-AllBehind {s} r (prune {db} fuel store now size sizes faults e) h =
    Behind-Grown (view s.db) (view db) s.ordered s.marked
      (nonces-Grown s.db db (prune-SameSenders fuel store now size sizes faults s.db db _ e).1) h

Reach-AllBehind : {s : System} → Reach s → AllBehind s
Reach-AllBehind (start first) = (tt, tt)
Reach-AllBehind (later r st) = Step-AllBehind (Reach-Reachable r) st (Reach-AllBehind r)

order-past :
    (other : Bool) (x : ℕ) (w : View) (sender : Text) (nonce : ℕ)
    → nonce + 1 ≤ x
    → order_from (some x) other w sender nonce ≡ (ok (stale x other), w)
order-past other x w sender nonce le = ground arith

-- Once marked, a nonce is below the expected one, and is not in order.
refuse_back-marked :
    (other : Bool) (next : Option ℕ) (v w : View) (sender : Text) (nonce e d : ℕ)
    → next ≡ some e
    → nonce + 1 ≤ e
    → (refuse_back v (order_from next other w sender nonce)).0
      ≢ ok (ordered_if_free (some (in_order d)))
refuse_back-marked other none v w sender nonce e d f le h = absurd (cc f)
refuse_back-marked other (some x) v w sender nonce e d f le h =
    let same : x ≡ e = cc f in
    let past = order-past other x w sender nonce (omega (arith, same, le)) in
    cc (ap (λ r. (refuse_back v r).0) past, h)

promise-marked :
    (store : IgraStore) (other : Bool) (v : View) (sender owner_id : Text) (nonce : ℕ) (hash : Text)
    (now lease_ms d : ℕ)
    → AtLeast v sender (nonce + 1)
    → (promise store other (try_classify sender owner_id nonce hash now lease_ms) v).0
      ≢ ok (ordered_if_free (some (in_order d)))
promise-marked store other v sender owner_id nonce hash now lease_ms d (e, f, le) =
    elim (Bool-cases (is_free (v.lease sender) owner_id now)) [
      | inl free ↦ rw free (
          refuse_back-marked other (v.next sender) v (take_lease v sender owner_id now lease_ms)
            sender nonce e d f le)
      | inr held ↦ rw held (λ h. cc)
    ]

-- At any moment of any schedule of tasks and processes on one database file, openings by further
-- stores of the file's profile included, after a nonce was answered to be in order and then marked
-- as submitted, no attempt of any task to lock and classify is answered that this nonce is in
-- order, whatever statements fail, whatever is pruned and whichever leases have run out. Tasks
-- mark only nonces that were in order, nonces are u64s, the clock does not go back, and no store of
-- another profile than the one in the file opens it.
pub marked_never_in_order :
    {s : System} (store : IgraStore) (faults : Faults) (sender owner_id : Text) (nonce : ℕ)
    (hash : Text) (now lease_ms d : ℕ)
    → Reach s
    → has sender nonce s.marked ≡ true
    → nonce ≤ u64_max
    → (run store faults (try_classify sender owner_id nonce hash now lease_ms) s.db).0
      ≢ ok (ordered_if_free (some (in_order d)))
marked_never_in_order {s} store faults sender owner_id nonce hash now lease_ms d r m fits h =
    let op = try_classify sender owner_id nonce hash now lease_ms in
    let past = has-AtLeast (view s.db) 1 sender nonce s.marked m (Reach-AllBehind r).1 in
    elim (run-Refines store faults op (Reach-Reachable r) fits) [
      | inl k ↦
          promise-marked store k.other (view s.db) sender owner_id nonce hash now lease_ms d past
            (cc (ap (λ o. o.0) k.kept, h))
      | inr (f, e) ↦ cc (ap (λ o. o.0) e, h)
    ]
