-- ===== src/Payload/Mine/Mined.antt =====
-- crates/igra/src/payload.rs: a run of mining, its result and its end.
use igra_foundry_sdk.Prelude.{
  ℕ, zero, suc, ◌+◌, ◌^◌, ◌≤◌, ◌<◌, ◌≡◌, refl, Bool, true, false, Option, none, some, List, [], ◌∷◌,
  Result, ok, err, ltb, ◌==◌, arith, Bool-cases, ==_iff, inl, inr, ◌∙◌, ap,
}
use igra_foundry_sdk.Prelude.Text.{Text, starts_with}
use igra_foundry_sdk.Payload.Format.{
  Bytes, set_nonce, build_payload_with_nonce, set_nonce-build_payload,
}
use igra_foundry_sdk.Payload.Mine.{
  KaspaTransaction, KaspaOutput, with_nonce, lower_first, next_nonce, after_wrap, mine_round,
  mine_loop,
}

-- The first output is the only one, and is at most `bound`.
abbrev pub PaysAtMost : ℕ → Text → List KaspaOutput → Type 0
PaysAtMost bound script [] = ⊥
PaysAtMost bound script (o ∷ []) = (o.value ≤ bound) × (o.script_public_key ≡ script)
PaysAtMost bound script (o ∷ p ∷ os) = ⊥

-- What the loop keeps: the inputs, one output that only shrinks, and a payload with some nonce.
pub record Shape (header : ℕ) (l2data : Bytes) (inputs : List Text) (bound : ℕ) (script : Text)
    (tx : KaspaTransaction) : Type 0 where
  pub same_inputs : tx.inputs ≡ inputs
  pub pays : PaysAtMost bound script tx.outputs
  pub nonce : ℕ
  pub carries : tx.payload ≡ build_payload_with_nonce header l2data nonce

next_nonce-lt : (nonce : ℕ) → next_nonce nonce < 2 ^ 32
unfolding next_nonce
next_nonce-lt nonce = omega arith

mine_round_ends :
    (late found : Bool) (timeout_ns nonce : ℕ) (tx : KaspaTransaction)
    (again : KaspaTransaction → Option (Result Text (ℕ × KaspaTransaction)))
    → (late ≡ false → (r : Result Text (ℕ × KaspaTransaction)) × (again tx ≡ some r))
    → (r : Result Text (ℕ × KaspaTransaction)) × (mine_round late found timeout_ns nonce tx again
        ≡ some r)
unfolding mine_round
mine_round_ends true found timeout_ns nonce tx again rest = (_, refl)
mine_round_ends false true timeout_ns nonce tx again rest = (_, refl)
mine_round_ends false false timeout_ns nonce tx again rest = rest refl

module _ (header : ℕ) (l2data : Bytes) (inputs : List Text) (bound : ℕ) (script : Text) where
  with_nonce-Shape :
      (tx : KaspaTransaction) (n : ℕ)
      → Shape header l2data inputs bound script tx
      → Shape header l2data inputs bound script (with_nonce tx n)
  unfolding with_nonce
  with_nonce-Shape tx n h = record {
    same_inputs = h.same_inputs;
    pays = h.pays;
    nonce = n;
    carries = ap (λ p. set_nonce p n) h.carries ∙ set_nonce-build_payload header l2data h.nonce n;
  }

  lower_first-PaysAtMost :
      (os : List KaspaOutput)
      → PaysAtMost bound script os
      → PaysAtMost bound script (lower_first os)
  unfolding lower_first
  lower_first-PaysAtMost [] h = h
  lower_first-PaysAtMost (o ∷ []) h = (omega arith, h.1)
  lower_first-PaysAtMost (o ∷ p ∷ os) h = h

  after_wrap-Shape :
      (n : ℕ) (tx : KaspaTransaction)
      → Shape header l2data inputs bound script tx
      → Shape header l2data inputs bound script (after_wrap n tx)
  unfolding after_wrap
  after_wrap-Shape zero tx h = record {
    same_inputs = h.same_inputs;
    pays = lower_first-PaysAtMost tx.outputs h.pays;
    nonce = h.nonce;
    carries = h.carries;
  }
  after_wrap-Shape (suc n) tx h = h

  -- A mined transaction has an id that begins with the prefix, carries the nonce that is returned in
  -- its payload, spends the inputs that were chosen, and pays at most what was to be paid.
  pub record IsMined (tx_id : KaspaTransaction → Bytes) (prefix : Bytes) (n : ℕ)
      (tx : KaspaTransaction) : Type 0 where
    pub found : starts_with (tx_id tx) prefix ≡ true
    pub carries : tx.payload ≡ build_payload_with_nonce header l2data n
    pub same_inputs : tx.inputs ≡ inputs
    pub pays : PaysAtMost bound script tx.outputs
    pub in_range : n < 2 ^ 32

  module _ (tx_id : KaspaTransaction → Bytes) (prefix : Bytes) (elapsed : ℕ → ℕ)
      (timeout_ns : ℕ) where
    -- Where a run returns a transaction, it is mined.
    abbrev pub Sound : Option (Result Text (ℕ × KaspaTransaction)) → Type 0
    Sound none = Unit
    Sound (some (err e)) = Unit
    Sound (some (ok (n, tx))) = IsMined tx_id prefix n tx

    mine_round-Sound :
        (late found : Bool) (nonce : ℕ) (tx : KaspaTransaction)
        (again : KaspaTransaction → Option (Result Text (ℕ × KaspaTransaction)))
        → (found ≡ true → IsMined tx_id prefix nonce tx)
        → Sound (again tx)
        → Sound (mine_round late found timeout_ns nonce tx again)
    unfolding mine_round
    mine_round-Sound true found nonce tx again mined rest = tt
    mine_round-Sound false true nonce tx again mined rest = mined refl
    mine_round-Sound false false nonce tx again mined rest = rest

    with_nonce-carries :
        (tx : KaspaTransaction) (n : ℕ)
        → Shape header l2data inputs bound script tx
        → (with_nonce tx n).payload ≡ build_payload_with_nonce header l2data n
    unfolding with_nonce
    with_nonce-carries tx n h =
        ap (λ p. set_nonce p n) h.carries ∙ set_nonce-build_payload header l2data h.nonce n

    pub mine_loop-Sound :
        (fuel i nonce : ℕ) (tx : KaspaTransaction)
        → Shape header l2data inputs bound script tx
        → nonce < 2 ^ 32
        → Sound (mine_loop tx_id prefix elapsed timeout_ns fuel i nonce tx)
    unfolding mine_loop
    mine_loop-Sound zero i nonce tx h b = tt
    mine_loop-Sound (suc fuel) i nonce tx h b =
        let h' = with_nonce-Shape tx nonce h in
        mine_round-Sound _ _ nonce (with_nonce tx nonce) _
          (λ found. record {
            found = found;
            carries = with_nonce-carries tx nonce h;
            same_inputs = h'.same_inputs;
            pays = h'.pays;
            in_range = b;
          })
          (mine_loop-Sound fuel (i + 1) (next_nonce nonce) _
            (after_wrap-Shape (next_nonce nonce) (with_nonce tx nonce) h') (next_nonce-lt nonce))

before_last :
    (elapsed : ℕ → ℕ) (timeout_ns i last : ℕ)
    → ltb timeout_ns (elapsed i) ≡ false
    → timeout_ns < elapsed last
    → i ≤ last
    → i + 1 ≤ last
before_last elapsed timeout_ns i last early late lo = elim (Bool-cases (i == last)) [
  | inl same ↦ let e = ap elapsed ((==_iff i last).0 same) in absurd (ground arith)
  | inr other ↦ ground arith
]

-- Mining ends: when the clock of some round is over the timeout, the fuel of one round more than
-- lead there is enough for a transaction or the timeout error.
pub mine_loop_ends :
    (tx_id : KaspaTransaction → Bytes) (prefix : Bytes) (elapsed : ℕ → ℕ) (timeout_ns : ℕ)
    (fuel i last nonce : ℕ) (tx : KaspaTransaction)
    → timeout_ns < elapsed last
    → i ≤ last
    → last < i + fuel
    → (r : Result Text (ℕ × KaspaTransaction)) × (mine_loop tx_id prefix elapsed timeout_ns fuel i
          nonce tx
        ≡ some r)
unfolding mine_loop
mine_loop_ends tx_id prefix elapsed timeout_ns zero i last nonce tx late lo hi =
    absurd (omega arith)
mine_loop_ends tx_id prefix elapsed timeout_ns (suc fuel) i last nonce tx late lo hi =
    mine_round_ends (ltb timeout_ns (elapsed i)) _ timeout_ns nonce (with_nonce tx nonce) _ λ early.
      mine_loop_ends tx_id prefix elapsed timeout_ns fuel (i + 1) last (next_nonce nonce) _ late
        (before_last elapsed timeout_ns i last early late lo) (omega arith)
