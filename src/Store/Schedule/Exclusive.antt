-- ===== src/Store/Schedule/Exclusive.antt =====
-- crates/igra/src/store.rs: no two tasks hold one sender while their leases last.
use mathlib.Core.List.{Memᴰ}
use igra_foundry_sdk.Prelude.{
  ℕ, ◌≤◌, ◌≡◌, refl, ap, sym, subst, some, Result, err, List, [], ◌∷◌, find, All, inl, inr, arith,
}
use igra_foundry_sdk.Store.Types.{IgraStoreError}
use igra_foundry_sdk.Store.Db.{Db, Faults, no_faults}
use igra_foundry_sdk.Store.Lifecycle.{IgraStore, map_option}
use igra_foundry_sdk.Store.Operation.{
  Operation, try_lock, try_classify, release, classify, mark, persist, load, set_version, reconcile,
  Answer, run,
}
use igra_foundry_sdk.Store.Operation.View.{View, lease_of, view, Keeps}
use igra_foundry_sdk.Store.Schedule.{
  Grant, System, Allowed, ran, Step, wait, act, prune, Reach, start, later,
}
use igra_foundry_sdk.Prelude.{◌⊎◌}
use igra_foundry_sdk.Store.Types.{SqliteFailure, sqlite}
use igra_foundry_sdk.Store.Prune.{prune_cache, delete_expired, delete_hashes}
use igra_foundry_sdk.Store.Prune.Induction.{prune_cache-Keeps}
use igra_foundry_sdk.Store.Tables.Reachable.{Reachable, created, pruned, run-Refines}
use igra_foundry_sdk.Store.Tables.Reachable as Tables
use igra_foundry_sdk.Store.Schedule.Leases.{All-Live, Live, All-dropped}
use igra_foundry_sdk.Store.Schedule.Holding.{Kept, IsAt, promise-Kept}

Step-Reachable : {s t : System} → Step s t → Reachable s.db → Reachable t.db
Step-Reachable (wait now le) r = r
Step-Reachable (act store faults op fits allowed) r = Tables.ran store faults op fits r
Step-Reachable (prune fuel store now size sizes faults e) r =
    pruned fuel store now size sizes faults e r

pub Reach-Reachable : {s : System} → Reach s → Reachable s.db
Reach-Reachable (start first) =
    Tables.ran first no_faults reconcile tt (Tables.ran first no_faults set_version tt created)
Reach-Reachable (later r st) = Step-Reachable st (Reach-Reachable r)

abbrev AllLive : System → Type 0
AllLive s = All (Live (view s.db) s.now) s.grants

-- A task that asked for the release gives its lease up, whatever is answered.
failed-Kept :
    (op : Operation) (v : View) (now : ℕ) (gs : List Grant) (e : IgraStoreError)
    → All (Live v now) gs
    → Kept op now gs (err e, v)
failed-Kept (try_lock sender owner_id n lease_ms) v now gs e h = h
failed-Kept (try_classify sender owner_id nonce hash n lease_ms) v now gs e h = h
failed-Kept (release sender owner_id) v now gs e h =
    All-dropped (Live v now) (Live v now) sender owner_id gs (λ g other l. l) h
failed-Kept (classify sender nonce n) v now gs e h = h
failed-Kept (mark sender nonce n) v now gs e h = h
failed-Kept (persist update n) v now gs e h = h
failed-Kept (load hash) v now gs e h = h
failed-Kept set_version v now gs e h = h
failed-Kept reconcile v now gs e h = h

Allowed-IsAt :
    (s : System) (store : IgraStore) (op : Operation)
    → Allowed s store op
    → IsAt s.now store (view s.db) op
Allowed-IsAt s store (try_lock sender owner_id n lease_ms) a = a
Allowed-IsAt s store (try_classify sender owner_id nonce hash n lease_ms) a = a
Allowed-IsAt s store (release sender owner_id) a = tt
Allowed-IsAt s store (classify sender nonce n) a = tt
Allowed-IsAt s store (mark sender nonce n) a = tt
Allowed-IsAt s store (persist update n) a = tt
Allowed-IsAt s store (load hash) a = tt
Allowed-IsAt s store set_version a = tt
Allowed-IsAt s store reconcile a = a

run-AllLive :
    (s : System) (op : Operation) (store : IgraStore) (o : Result IgraStoreError Answer × Db)
    → IsAt s.now store (view s.db) op
    → (Keeps store op (view s.db) o.0 (view o.1)
        ⊎ ((f : SqliteFailure) × (o ≡ (err (sqlite f), s.db))))
    → AllLive s
    → AllLive (ran s op o)
run-AllLive s op store o at (inl k) h =
    subst (Kept op s.now s.grants) (sym k.kept)
      (promise-Kept store k.other op (view s.db) s.now s.grants at h)
run-AllLive s op store o at (inr (f, e)) h =
    subst (λ p. AllLive (ran s op p)) (sym e)
      (failed-Kept op (view s.db) s.now s.grants (sqlite f) h)

abbrev SameSenders : Db → Db → Type 0
SameSenders d e = (e.sender_locks ≡ d.sender_locks) × (e.sender_nonce_state ≡ d.sender_nonce_state)

-- Pruning deletes transactions only.
pub prune-SameSenders :
    (fuel : ℕ) (store : IgraStore) (now size : ℕ) (sizes : ℕ → ℕ) (faults : Faults) (db db' : Db)
    (r : Result IgraStoreError (Unit {0}))
    → prune_cache fuel store now size sizes faults db ≡ some (r, db')
    → SameSenders db db'
unfolding delete_expired delete_hashes
prune-SameSenders fuel store now size sizes faults db db' r e =
    prune_cache-Keeps (SameSenders db) (λ limit d h. h) (λ limit d h. h) (λ d h. h) fuel store now
      size sizes faults db db' r (refl, refl) e

All-wait :
    (v : View) (now n : ℕ) (gs : List Grant) → now ≤ n → All (Live v now) gs → All (Live v n) gs
All-wait v now n [] le h = tt
All-wait v now n (g ∷ gs) le h = ((λ live. h.0 (omega arith)), All-wait v now n gs le h.1)

locks-view : (d e : Db) → SameSenders d e → (view d).lease ≡ (view e).lease
locks-view d e h = λ i s. map_option lease_of (find s (sym h.0 i))

Step-AllLive : {s t : System} → Reachable s.db → Step s t → AllLive s → AllLive t
Step-AllLive {s} r (wait now le) h = All-wait (view s.db) s.now now s.grants le h
Step-AllLive {s} r (act store faults op fits allowed) h =
    run-AllLive s op store (run store faults op s.db) (Allowed-IsAt s store op allowed)
      (run-Refines store faults op r fits) h
Step-AllLive {s} r (prune {db} fuel store now size sizes faults e) h =
    All-Live (view s.db) (view db) s.now s.grants
      (locks-view s.db db (prune-SameSenders fuel store now size sizes faults s.db db _ e)) h

Reach-AllLive : {s : System} → Reach s → AllLive s
Reach-AllLive (start first) = tt
Reach-AllLive (later r st) = Step-AllLive (Reach-Reachable r) st (Reach-AllLive r)

All-member : (P : Grant → Type 0) (g : Grant) (gs : List Grant) → All P gs → Memᴰ g gs → P g
All-member P g [] h m = elim m [ ]
All-member P g (x ∷ gs) h (Memᴰ.head e) = subst P (sym e) h.0
All-member P g (x ∷ gs) h (Memᴰ.tail m) = All-member P g gs h.1 m

-- At any moment of any schedule of tasks and processes on one database file, openings by further
-- stores of the file's profile included, two leases on one sender whose time is not over belong to
-- one owner: whatever statements fail, whatever is pruned, and in whatever order the calls come, as
-- long as the clock does not go back, a task that asked for its release no longer counts as a
-- holder, and no store of another profile than the one in the file opens it.
pub one_holder :
    {s : System} (g h : Grant)
    → Reach s
    → Memᴰ g s.grants
    → Memᴰ h s.grants
    → s.now ≤ g.until
    → s.now ≤ h.until
    → g.sender ≡ h.sender
    → g.owner_id ≡ h.owner_id
one_holder {s} g h r m n live_g live_h same =
    let v = view s.db in
    let all = Reach-AllLive r in
    let b = All-member (Live v s.now) g s.grants all m live_g in
    let c = All-member (Live v s.now) h s.grants all n live_h in
    let one : some b.lease ≡ some c.lease = cc (b.found, c.found, ap v.lease same) in
    cc (one, b.holder, c.holder)
