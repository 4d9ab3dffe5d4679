-- ===== src/Submitter/Submit/Returns.antt =====
-- crates/igra/src/submitter.rs: the end of `submit_payload`.
use igra_foundry_sdk.Prelude.{
  ℕ, ◌*◌, ◌<◌, ◌≡◌, refl, Bool, true, false, Option, none, some, List, [], ◌∷◌, Result, ok, err,
  arith,
}
use igra_foundry_sdk.Prelude.Text.{Text}
use igra_foundry_sdk.Payload.Format.{Bytes}
use igra_foundry_sdk.Payload.Select.{Utxo, Selection}
use igra_foundry_sdk.Payload.Mine.{KaspaTransaction}
use igra_foundry_sdk.Payload.Mine.Mined.{mine_loop_ends}
use igra_foundry_sdk.Payload.Build.{
  Kaspa, unsigned, finish, mine_funded, unless_refused, mine_and_build_signed_payload_transaction,
}
use igra_foundry_sdk.Submitter.Cache.{SubmitterCache}
use igra_foundry_sdk.Submitter.Submit.{
  IgraSubmitRequest, Crates, AttemptWorld, Prepared, prepare, Flow, returned, continues,
  out_of_fuel, after_broadcast, after_build, joined, after_load, attempt, after_second, after_first,
  submit_prepared, submit_payload,
}

abbrev Ends : {A : Type 0} → Option A → Type 0
Ends {A} o = (a : A) × (o ≡ some a)

abbrev HasFuel : Flow → Type 0
HasFuel (returned r c sent) = Unit
HasFuel (continues c sent) = Unit
HasFuel out_of_fuel = ⊥

abbrev pub IsReturned : Flow → Type 0
IsReturned (returned r c sent) = Unit
IsReturned (continues c sent) = ⊥
IsReturned out_of_fuel = ⊥

finish-Ends :
    (kaspa : Kaspa) (key prefix : Bytes) (selected : List Utxo)
    (m : Option (Result Text (ℕ × KaspaTransaction)))
    → Ends m
    → Ends (finish kaspa key prefix selected m)
unfolding finish
finish-Ends kaspa key prefix selected none (r, e) = absurd (cc)
finish-Ends kaspa key prefix selected (some r') h = (_, refl)

module _ (kaspa : Kaspa) (fuel last timeout_ns : ℕ) (elapsed : ℕ → ℕ)
    (late : timeout_ns < elapsed last) (enough : last < fuel) where
  mine_funded-Ends :
      (key : Bytes) (source : Text) (header : ℕ) (l2data prefix : Bytes)
      (r : Result Text (Selection × ℕ))
      → Ends (mine_funded fuel kaspa key source header l2data prefix elapsed timeout_ns r)
  unfolding mine_funded
  mine_funded-Ends key source header l2data prefix (err e) = (_, refl)
  mine_funded-Ends key source header l2data prefix (ok funded) =
      finish-Ends kaspa key prefix (funded.0).selected _ (
        mine_loop_ends kaspa.tx_id prefix elapsed timeout_ns fuel 0 last 0
          (unsigned kaspa source header l2data funded) late (omega arith) (omega arith))

  unless_refused-Ends :
      {A : Type 0} (c : Result Text (Unit {0})) (rest : Option (Result Text A))
      → Ends rest
      → Ends (unless_refused c rest)
  unfolding unless_refused
  unless_refused-Ends (err e) rest h = (_, refl)
  unless_refused-Ends (ok _) rest h = h

  build-Ends :
      (key : Bytes) (source : Text) (header : ℕ) (l2data prefix : Bytes) (utxos : List Utxo)
      → Ends (
          mine_and_build_signed_payload_transaction fuel kaspa key source header l2data prefix
            elapsed timeout_ns utxos)
  unfolding mine_and_build_signed_payload_transaction
  build-Ends key source header l2data prefix utxos =
      unless_refused-Ends _ _ (mine_funded-Ends key source header l2data prefix _)

after_broadcast-HasFuel :
    (second : Bool) (nonce : ℕ) (tx : KaspaTransaction) (answer : Result Text Text)
    (c : SubmitterCache)
    → HasFuel (after_broadcast second nonce tx answer c)
unfolding after_broadcast
after_broadcast-HasFuel second nonce tx (ok id) c = tt
after_broadcast-HasFuel true nonce tx (err e) c = tt
after_broadcast-HasFuel false nonce tx (err e) c = tt

after_build-HasFuel :
    (second : Bool) (world : AttemptWorld) (join_error : Option Text)
    (built : Option (Result Text (ℕ × KaspaTransaction))) (c : SubmitterCache)
    → Ends built
    → HasFuel (after_build second world (joined join_error built) c)
unfolding after_build joined
after_build-HasFuel second world (some e) built c h = tt
after_build-HasFuel second world none none c (r, e) = absurd (cc)
after_build-HasFuel second world none (some (err e)) c h = tt
after_build-HasFuel second world none (some (ok (n, tx))) c h =
    after_broadcast-HasFuel second n tx _ _

after_second-IsReturned :
    (sent : List KaspaTransaction) (flow : Flow)
    → HasFuel flow
    → IsReturned (after_second sent flow)
unfolding after_second
after_second-IsReturned sent (returned r c more) h = tt
after_second-IsReturned sent (continues c more) h = tt
after_second-IsReturned sent out_of_fuel h = h

module _ (fuel last : ℕ) (crates : Crates) (request : IgraSubmitRequest)
    (enough : last < fuel) where
  after_load-HasFuel :
      (p : Prepared) (second : Bool) (world : AttemptWorld)
      (loaded : Result Text (List Utxo) × SubmitterCache)
      → p.timeout_ns < world.elapsed last
      → HasFuel (after_load fuel crates request p second world loaded)
  unfolding after_load
  after_load-HasFuel p second world (err e, c) late = tt
  after_load-HasFuel p true world (ok [], c) late = tt
  after_load-HasFuel p false world (ok [], c) late = tt
  after_load-HasFuel p second world (ok (u ∷ us), c) late =
      after_build-HasFuel second world world.join_error _ c (
        build-Ends (crates.kaspa p.network_type) fuel last p.timeout_ns world.elapsed late enough
          p.private_key p.source_address p.payload_header p.l2data p.prefix_bytes (u ∷ us))

  after_first-IsReturned :
      (p : Prepared) (world : AttemptWorld) (flow : Flow)
      → p.timeout_ns < world.elapsed last
      → HasFuel flow
      → IsReturned (after_first fuel crates request p world flow)
  unfolding after_first attempt
  after_first-IsReturned p world (returned r c sent) late h = tt
  after_first-IsReturned p world (continues c sent) late h =
      after_second-IsReturned sent _ (after_load-HasFuel p true world _ late)
  after_first-IsReturned p world out_of_fuel late h = h

  prepared_timeout :
      (p : Prepared)
      → prepare crates request ≡ ok p
      → p.timeout_ns ≡ request.mining_timeout_secs * 1_000_000_000
  unfolding prepare
  prepared_timeout p e = ground arith

  submit_prepared-IsReturned :
      (first second : AttemptWorld) (c : SubmitterCache) (prepared : Result Text Prepared)
      → prepare crates request ≡ prepared
      → request.mining_timeout_secs * 1_000_000_000 < first.elapsed last
      → request.mining_timeout_secs * 1_000_000_000 < second.elapsed last
      → IsReturned (submit_prepared fuel crates request first second c prepared)
  unfolding submit_prepared attempt
  submit_prepared-IsReturned first second c (err m) e late late' = tt
  submit_prepared-IsReturned first second c (ok p) e late late' =
      let same = prepared_timeout p e in
      after_first-IsReturned p second _ (omega (arith, same, late'))
        (after_load-HasFuel p false first _ (omega (arith, same, late)))

-- A submission returns: when the clock of each attempt is over the request's timeout in some round of
-- mining, one round more than that is enough fuel, whatever the node answers.
pub submit_payload_ends :
    (fuel last : ℕ) (crates : Crates) (request : IgraSubmitRequest) (first second : AttemptWorld)
    (c : SubmitterCache)
    → request.mining_timeout_secs * 1_000_000_000 < first.elapsed last
    → request.mining_timeout_secs * 1_000_000_000 < second.elapsed last
    → last < fuel
    → IsReturned (submit_payload fuel crates request first second c)
unfolding submit_payload
submit_payload_ends fuel last crates request first second c late late' enough =
    submit_prepared-IsReturned fuel last crates request enough first second c
      (prepare crates request) refl late late'
