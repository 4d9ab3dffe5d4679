-- ===== src/Submitter/Submit/Delivers.antt =====
-- crates/igra/src/submitter.rs: how many transactions an attempt and two of them hand to the node.
use igra_foundry_sdk.Prelude.{
  ℕ, ◌≤◌, ◌≡◌, refl, Bool, true, false, Option, none, some, List, [], ◌∷◌, ◌++◌, Result, ok, err,
  arith, length,
}
use igra_foundry_sdk.Prelude.Text.{Text}
use igra_foundry_sdk.Payload.Mine.{KaspaTransaction}
use igra_foundry_sdk.Submitter.Cache.{SubmitterCache, invalidate_utxo_cache}
use igra_foundry_sdk.Submitter.Submit.{
  IgraSubmitResult, AttemptWorld, Flow, returned, continues, out_of_fuel, after_broadcast,
  after_build, joined, after_second,
}

abbrev All : (KaspaTransaction → Type 0) → List KaspaTransaction → Type 0
All P [] = Unit
All P (tx ∷ txs) = P tx × All P txs

-- After a success the cache is empty.
abbrev Cleared : Result Text IgraSubmitResult → SubmitterCache → Type 0
Cleared (ok r) c = c.utxo_cache ≡ none
Cleared (err e) c = Unit

-- At most n transactions were sent, each with P.
abbrev pub Delivers : (KaspaTransaction → Type 0) → ℕ → Flow → Type 0
Delivers P n (returned r c sent) = (length sent ≤ n) × All P sent × Cleared r c
Delivers P n (continues c sent) = (length sent ≤ n) × All P sent
Delivers P n out_of_fuel = Unit

All-append :
    (P : KaspaTransaction → Type 0) (xs ys : List KaspaTransaction)
    → All P xs
    → All P ys
    → All P (xs ++ ys)
All-append P [] ys a b = b
All-append P (x ∷ xs) ys a b = (a.0, All-append P xs ys a.1 b)

append-length-le :
    (xs ys : List KaspaTransaction) → length xs ≤ 1 → length ys ≤ 1 → length (xs ++ ys) ≤ 2
append-length-le [] ys a b = omega arith
append-length-le (x ∷ []) ys a b = omega arith
append-length-le (x ∷ y ∷ xs) ys a b = absurd (omega arith)

module _ (P : KaspaTransaction → Type 0) where
  after_broadcast-Delivers :
      (second : Bool) (nonce : ℕ) (tx : KaspaTransaction) (answer : Result Text Text)
      (c : SubmitterCache)
      → P tx
      → Delivers P 1 (after_broadcast second nonce tx answer c)
  unfolding after_broadcast invalidate_utxo_cache
  after_broadcast-Delivers second nonce tx (ok tx_id) c p = (omega arith, (p, tt), refl)
  after_broadcast-Delivers true nonce tx (err e) c p = (omega arith, (p, tt), tt)
  after_broadcast-Delivers false nonce tx (err e) c p = (omega arith, (p, tt))

  pub after_build-Delivers :
      (second : Bool) (world : AttemptWorld) (built : Option (Result Text (ℕ × KaspaTransaction)))
      (c : SubmitterCache)
      → ((n : ℕ) (tx : KaspaTransaction) → built ≡ some (ok (n, tx)) → P tx)
      → Delivers P 1 (after_build second world built c)
  unfolding after_build
  after_build-Delivers second world none c h = tt
  after_build-Delivers second world (some (err e)) c h = (omega arith, tt, tt)
  after_build-Delivers second world (some (ok (n, tx))) c h =
      after_broadcast-Delivers second n tx (world.answer tx)
        (world.others_sending (invalidate_utxo_cache c)) (h n tx refl)

  pub joined-built :
      (join_error : Option Text) (built : Option (Result Text (ℕ × KaspaTransaction))) (n : ℕ)
      (tx : KaspaTransaction)
      → joined join_error built ≡ some (ok (n, tx))
      → built ≡ some (ok (n, tx))
  unfolding joined
  joined-built none built n tx e = e
  joined-built (some m) built n tx e = absurd (cc)

  pub after_second-Delivers :
      (sent : List KaspaTransaction) (flow : Flow)
      → length sent ≤ 1
      → All P sent
      → Delivers P 1 flow
      → Delivers P 2 (after_second sent flow)
  unfolding after_second
  after_second-Delivers sent (returned r c more) l a (m, b, k) =
      (append-length-le sent more l m, All-append P sent more a b, k)
  after_second-Delivers sent (continues c more) l a (m, b) =
      (append-length-le sent more l m, All-append P sent more a b, tt)
  after_second-Delivers sent out_of_fuel l a d = tt
