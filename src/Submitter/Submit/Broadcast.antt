-- ===== src/Submitter/Submit/Broadcast.antt =====
-- crates/igra/src/submitter.rs: what `submit_payload` hands to the node, and the cache after it.
use igra_foundry_sdk.Prelude.{
  ℕ, ◌≤◌, ◌≡◌, refl, subst, Bool, true, false, none, some, List, [], ◌∷◌, ◌++◌, Result, ok, err,
  arith, length,
}
use igra_foundry_sdk.Prelude.Text.{Text, codes}
use igra_foundry_sdk.Payload.Fee.{igra_max_l2data_bytes}
use igra_foundry_sdk.Payload.Format.{Bytes, payload_header, normalize_hex_prefix}
use igra_foundry_sdk.Payload.Select.{Utxo}
use igra_foundry_sdk.Payload.Mine.{KaspaTransaction}
use igra_foundry_sdk.Payload.Build.Checked.{Signs, IsBuilt, built_lem}
use igra_foundry_sdk.Keys.{
  KaspaNetworkType, kaspa_network_descriptor, resolve_kaspa_private_key,
  kaspa_address_from_private_key,
}
use igra_foundry_sdk.Payload.Build.{mine_and_build_signed_payload_transaction}
use igra_foundry_sdk.Submitter.Submit.Origin.{
  IsPrepared, prepare-IsPrepared, IsOffered, first-IsOffered, second-IsOffered,
}
use igra_foundry_sdk.Submitter.Cache.{SubmitterCache}
use igra_foundry_sdk.Submitter.Submit.{
  IgraSubmitRequest, Crates, AttemptWorld, Prepared, prepare, Flow, returned, continues,
  out_of_fuel, after_load, attempt, after_first, submit_prepared, submit_payload,
}
use igra_foundry_sdk.Submitter.Submit.Delivers.{
  Delivers, after_build-Delivers, joined-built, after_second-Delivers,
}

module _ (crates : Crates)
    (laws : (network : KaspaNetworkType) → Signs (crates.kaspa network)) where
  -- A transaction that was chosen, mined and signed for the request: with the key of its wallet, to
  -- that key's address on its network, under its prefix, and for its bytes, which are not too
  -- many, from UTXOs that satisfy `Offered` under the key of the cache.
  pub record Carries (Offered : Text → List Utxo → Type 0) (request : IgraSubmitRequest)
      (tx : KaspaTransaction) : Type 0 where
    pub rpc_url : Text
    pub has_url : request.kaspa_rpc_url ≡ some rpc_url
    pub network_name : Text
    pub has_network : request.kaspa_network ≡ some network_name
    pub network : KaspaNetworkType
    pub address_prefix : KaspaNetworkType
    pub described : kaspa_network_descriptor network_name ≡ ok (network, address_prefix)
    pub key : Bytes
    pub resolved : resolve_kaspa_private_key crates.keys request.kaspa_wallet none ≡ ok key
    pub source : Text
    pub addressed : kaspa_address_from_private_key crates.keys key address_prefix ≡ ok source
    pub prefix : Bytes
    pub decoded : crates.decode_hex (normalize_hex_prefix request.tx_id_prefix) ≡ ok prefix
    pub utxos : List Utxo
    pub offered : Offered (rpc_url ++ codes "|" ++ network_name ++ codes "|" ++ source) utxos
    pub nonce : ℕ
    pub built :
        IsBuilt
          (crates.kaspa network)
          (laws network)
          prefix
          key
          source
          payload_header
          request.raw_tx_bytes
          utxos
          nonce
          tx
    pub fits : length request.raw_tx_bytes ≤ igra_max_l2data_bytes

  -- The stages of a submission whose UTXOs are offered.
  module _ (Offered : Text → List Utxo → Type 0) (request : IgraSubmitRequest) where
    mined-Carries :
        (fuel : ℕ) (p : Prepared) (world : AttemptWorld) (utxos : List Utxo) (n : ℕ)
        (tx : KaspaTransaction)
        → IsPrepared crates request p
        → Offered p.cache_key utxos
        → mine_and_build_signed_payload_transaction fuel
            (crates.kaspa p.network_type)
            p.private_key
            p.source_address
            p.payload_header
            p.l2data
            p.prefix_bytes
            world.elapsed
            p.timeout_ns
            utxos
          ≡ some (ok (n, tx))
        → Carries Offered request tx
    mined-Carries fuel p world utxos n tx h o e = record {
      rpc_url = h.rpc_url;
      has_url = h.has_url;
      network_name = h.network;
      has_network = h.has_network;
      network = p.network_type;
      address_prefix = h.address_prefix;
      described = h.described;
      key = p.private_key;
      resolved = h.key;
      source = p.source_address;
      addressed = h.source;
      prefix = p.prefix_bytes;
      decoded = h.prefix;
      utxos = utxos;
      offered = subst (λ k. Offered k utxos) h.keyed o;
      nonce = n;
      built =
          subst
            (λ b.
              IsBuilt (crates.kaspa p.network_type) (laws p.network_type) p.prefix_bytes
                p.private_key p.source_address payload_header b utxos n tx)
            h.l2data
            (subst
              (λ b.
                IsBuilt (crates.kaspa p.network_type) (laws p.network_type) p.prefix_bytes
                  p.private_key p.source_address b p.l2data utxos n tx)
              h.header
              (built_lem (crates.kaspa p.network_type) (laws p.network_type) p.prefix_bytes fuel
                p.private_key p.source_address p.payload_header p.l2data world.elapsed p.timeout_ns
                utxos n tx e));
      fits = h.fits;
    }

    after_load-Delivers :
        (fuel : ℕ) (p : Prepared) (second : Bool) (world : AttemptWorld)
        (loaded : Result Text (List Utxo) × SubmitterCache)
        → IsPrepared crates request p
        → ((utxos : List Utxo) → loaded.0 ≡ ok utxos → Offered p.cache_key utxos)
        → Delivers
            (Carries Offered request)
            1
            (after_load fuel crates request p second world loaded)
    unfolding after_load
    after_load-Delivers fuel p second world (err e, c) h o = (omega arith, tt, tt)
    after_load-Delivers fuel p true world (ok [], c) h o = (omega arith, tt, tt)
    after_load-Delivers fuel p false world (ok [], c) h o = (omega arith, tt)
    after_load-Delivers fuel p second world (ok (u ∷ us), c) h o =
        after_build-Delivers (Carries Offered request) second world _ c λ n tx e.
          mined-Carries fuel p world (u ∷ us) n tx h (o (u ∷ us) refl)
            (joined-built (Carries Offered request) world.join_error _ n tx e)

  module _ (request : IgraSubmitRequest) (first second : AttemptWorld) (c : SubmitterCache) where
    after_first-Delivers :
        (fuel : ℕ) (p : Prepared) (flow : Flow)
        → IsPrepared crates request p
        → Delivers (Carries (IsOffered first second c) request) 1 flow
        → Delivers
            (Carries (IsOffered first second c) request)
            2
            (after_first fuel crates request p second flow)
    unfolding after_first attempt
    after_first-Delivers fuel p (returned r d sent) h (n, a, k) = (omega arith, a, k)
    after_first-Delivers fuel p (continues d sent) h (n, a) =
        after_second-Delivers (Carries (IsOffered first second c) request) sent _ n a (
          after_load-Delivers (IsOffered first second c) request fuel p true second _ h
            (second-IsOffered first second c d p.cache_key))
    after_first-Delivers fuel p out_of_fuel h d = tt

    submit_prepared-Delivers :
        (fuel : ℕ) (prepared : Result Text Prepared)
        → prepare crates request ≡ prepared
        → Delivers
            (Carries (IsOffered first second c) request)
            2
            (submit_prepared fuel crates request first second c prepared)
    unfolding submit_prepared attempt
    submit_prepared-Delivers fuel (err m) e = (omega arith, tt, tt)
    submit_prepared-Delivers fuel (ok p) e =
        let h = prepare-IsPrepared crates request p e in
        after_first-Delivers fuel p _ h (
          after_load-Delivers (IsOffered first second c) request fuel p false first _ h
            (first-IsOffered first second c p.cache_key))

    -- A submission sends at most two transactions. Each of them was mined under the prefix of the request
    -- and signed with the key of its wallet, passes the verification, pays to the address of that
    -- key on the request's network, carries the bytes of the request, which are not more than the
    -- limit, and spends UTXOs that the node answered to one of the two queries, or that the cache
    -- held for this node, network and address for at most 20 seconds. After a success the cache is
    -- empty. This holds whatever the node answers and whatever other tasks do to the cache, when
    -- the Kaspa crates keep their laws on signing.
    pub submit_payload-Delivers :
        (fuel : ℕ)
        → Delivers
            (Carries (IsOffered first second c) request)
            2
            (submit_payload fuel crates request first second c)
    unfolding submit_payload
    submit_payload-Delivers fuel = submit_prepared-Delivers fuel (prepare crates request) refl
