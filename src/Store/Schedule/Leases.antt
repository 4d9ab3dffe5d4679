-- ===== src/Store/Schedule/Leases.antt =====
-- crates/igra/src/store.rs: the leases that tasks hold against the leases of the view.
use igra_foundry_sdk.Prelude.{
  ℕ, ◌≤◌, ◌≡◌, refl, ap, true, false, Option, none, some, List, [], ◌∷◌, All, Bool-cases, inl, inr,
  arith, if◌then◌else◌,
}
use igra_foundry_sdk.Prelude.Text.{Text, text_eq, text_eq_iff, text_eq_refl, text_eq_sound}
use igra_foundry_sdk.Prelude.Words.{saturating_add}
use igra_foundry_sdk.Store.Operation.View.{View, Lease, is_free, take_lease, note, unless_held}
use igra_foundry_sdk.Store.Schedule.{Grant, is_of, dropped, granted}

-- A grant whose time is not over is the lease in the tables.
pub record Backs (v : View) (g : Grant) : Type 0 where
  pub lease : Lease
  pub found : v.lease g.sender ≡ some lease
  pub holder : lease.holder ≡ g.owner_id
  pub until : g.until ≤ lease.until

abbrev pub Live : View → ℕ → Grant → Type 0
Live v now g = now ≤ g.until → Backs v g

pub All-dropped :
    (P : Grant → Type 0) (Q : Grant → Type 0) (sender owner_id : Text) (gs : List Grant)
    → ((g : Grant) → is_of sender owner_id g ≡ false → P g → Q g)
    → All P gs
    → All Q (dropped sender owner_id gs)
All-dropped P Q sender owner_id [] f h = tt
All-dropped P Q sender owner_id (g ∷ gs) f h = elim (Bool-cases (is_of sender owner_id g)) [
  | inl e ↦ rw e (All-dropped P Q sender owner_id gs f h.1)
  | inr e ↦ rw e (f g e h.0, All-dropped P Q sender owner_id gs f h.1)
]

is_taken :
    (l : Lease) (g : Grant) (sender owner_id : Text) (now : ℕ)
    → text_eq sender g.sender ≡ true
    → is_of sender owner_id g ≡ false
    → l.holder ≡ g.owner_id
    → now ≤ l.until
    → is_free (some l) owner_id now ≡ false
is_taken l g sender owner_id now same other holder live = ground (
  arith,
  text_eq_iff sender g.sender,
  text_eq_iff g.sender sender,
  text_eq_iff g.owner_id owner_id,
  text_eq_iff l.holder owner_id,
)

-- Another's live lease is not free, so the new lease cannot be on its sender.
Live-take :
    (v : View) (sender owner_id : Text) (now lease_ms : ℕ) (g : Grant)
    → is_free (v.lease sender) owner_id now ≡ true
    → is_of sender owner_id g ≡ false
    → Live v now g
    → Live (take_lease v sender owner_id now lease_ms) now g
Live-take v sender owner_id now lease_ms g free other h live =
    let b = h live in
    elim (Bool-cases (text_eq sender g.sender)) [
      | inl e ↦
          let same : sender ≡ g.sender = text_eq_sound sender g.sender e in
          let found : v.lease sender ≡ some b.lease = cc (ap v.lease same, b.found) in
          let until : now ≤ b.lease.until = omega (arith, live, b.until) in
          let taken = is_taken b.lease g sender owner_id now e other b.holder until in
          absurd (cc (ap (λ l. is_free l owner_id now) found, taken, free))
      | inr e ↦ record { lease = b.lease; found = rw e b.found; holder = b.holder; until = b.until }
    ]

pub granted-Live :
    (v : View) (sender owner_id : Text) (now lease_ms : ℕ) (gs : List Grant)
    → is_free (v.lease sender) owner_id now ≡ true
    → All (Live v now) gs
    → All
        (Live (take_lease v sender owner_id now lease_ms) now)
        (granted sender owner_id (saturating_add now lease_ms) gs)
granted-Live v sender owner_id now lease_ms gs free h = (
  (λ _. record {
    lease = record { holder = owner_id; until = saturating_add now lease_ms };
    found = rw (text_eq_refl sender);
    holder = refl;
    until = omega arith;
  }),
  All-dropped _ _ sender owner_id gs
      (λ g other. Live-take v sender owner_id now lease_ms g free other) h,
)

pub release-Live :
    (v : View) (sender owner_id : Text) (now : ℕ) (g : Grant)
    → is_of sender owner_id g ≡ false
    → Live v now g
    → Live
        (record v {
          lease = λ s. if text_eq sender s then unless_held owner_id (v.lease s) else v.lease s;
        })
        now
        g
release-Live v sender owner_id now g other h live =
    let b = h live in
    record {
      lease = b.lease;
      found = rw (b.found) (
          ground (
            arith,
            text_eq_iff sender g.sender,
            text_eq_iff g.sender sender,
            text_eq_iff g.owner_id owner_id,
            text_eq_iff b.lease.holder owner_id,
            b.holder,
          ));
      holder = b.holder;
      until = b.until;
    }

-- Only the leases of a view count.
pub All-Live :
    (v v' : View) (now : ℕ) (gs : List Grant)
    → v.lease ≡ v'.lease
    → All (Live v now) gs
    → All (Live v' now) gs
All-Live v v' now [] e h = tt
All-Live v v' now (g ∷ gs) e h = (
  (λ live.
      let b = h.0 live in
      record {
        lease = b.lease;
        found = cc (ap (λ f. f g.sender) e, b.found);
        holder = b.holder;
        until = b.until;
      }),
  All-Live v v' now gs e h.1,
)

pub note-lease :
    (next : Option ℕ) (v : View) (sender : Text) (nonce : ℕ)
    → (note next v sender nonce).lease ≡ v.lease
note-lease none v sender nonce = refl
note-lease (some e) v sender nonce = refl
