-- ===== src/Submitter/Submit/Origin.antt =====
-- crates/igra/src/submitter.rs: where the prefix, the key, the source address and the UTXOs of a submission
-- come from.
use igra_foundry_sdk.Prelude.{
  ℕ, ◌≤◌, ◌≡◌, refl, true, false, none, some, List, Result, ok, err, ◌++◌, arith, length, ◌⊎◌,
  Option-cases, inl, inr, ◌*◌,
}
use igra_foundry_sdk.Prelude.Text.{Text, codes, text_eq_iff}
use igra_foundry_sdk.Keys.{
  KaspaNetworkType, kaspa_network_descriptor, resolve_kaspa_private_key,
  kaspa_address_from_private_key,
}
use igra_foundry_sdk.Payload.Fee.{igra_max_l2data_bytes}
use igra_foundry_sdk.Payload.Format.{payload_header, build_igra_l2data, normalize_hex_prefix}
use igra_foundry_sdk.Payload.Select.{Utxo}
use igra_foundry_sdk.Submitter.Cache.{
  CachedUtxoSet, SubmitterCache, load_utxos, cached, fresh_entries, after_fetch,
}
use igra_foundry_sdk.Submitter.Submit.{IgraSubmitRequest, Crates, AttemptWorld, Prepared, prepare}

-- What a submission is prepared with, told from the request.
pub record IsPrepared (crates : Crates) (request : IgraSubmitRequest) (p : Prepared) : Type 0 where
  pub header : p.payload_header ≡ payload_header
  pub l2data : p.l2data ≡ request.raw_tx_bytes
  pub fits : length request.raw_tx_bytes ≤ igra_max_l2data_bytes
  pub rpc_url : Text
  pub has_url : request.kaspa_rpc_url ≡ some rpc_url
  pub network : Text
  pub has_network : request.kaspa_network ≡ some network
  pub address_prefix : KaspaNetworkType
  pub described : kaspa_network_descriptor network ≡ ok (p.network_type, address_prefix)
  pub key : resolve_kaspa_private_key crates.keys request.kaspa_wallet none ≡ ok p.private_key
  pub source :
      kaspa_address_from_private_key crates.keys p.private_key address_prefix ≡ ok p.source_address
  pub prefix : crates.decode_hex (normalize_hex_prefix request.tx_id_prefix) ≡ ok p.prefix_bytes
  pub keyed : p.cache_key ≡ rpc_url ++ codes "|" ++ network ++ codes "|" ++ p.source_address

Result-cases : {E A : Type 0} (r : Result E A) → ((a : A) × (r ≡ ok a)) ⊎ ((e : E) × (r ≡ err e))
Result-cases (ok a) = inl (a, refl)
Result-cases (err e) = inr (e, refl)

module _ (crates : Crates) (request : IgraSubmitRequest) (p : Prepared)
    (h : prepare crates request ≡ ok p) where
  described_lem :
      (rpc_url network : Text)
      → request.kaspa_rpc_url ≡ some rpc_url
      → request.kaspa_network ≡ some network
      → (t : KaspaNetworkType) × (kaspa_network_descriptor network ≡ ok (p.network_type, t))
  unfolding prepare
  described_lem rpc_url network has_url has_network =
      elim (Result-cases (kaspa_network_descriptor network)) [
        | inl (types, e) ↦ (types.1, ground arith)
        | inr (m, e) ↦ absurd (ground arith)
      ]

  told_of_request :
      (rpc_url network : Text) (types : KaspaNetworkType)
      → request.kaspa_rpc_url ≡ some rpc_url
      → request.kaspa_network ≡ some network
      → kaspa_network_descriptor network ≡ ok (p.network_type, types)
      → IsPrepared crates request p
  unfolding prepare build_igra_l2data
  told_of_request rpc_url network types has_url has_network described = record {
    header = ground arith;
    l2data = ground arith;
    fits = ground arith;
    rpc_url = rpc_url;
    has_url = has_url;
    network = network;
    has_network = has_network;
    address_prefix = types;
    described = described;
    key = ground arith;
    source = ground arith;
    prefix = ground arith;
    keyed = ground arith;
  }

  pub prepare-IsPrepared : IsPrepared crates request p
  unfolding prepare
  prepare-IsPrepared = elim (Option-cases request.kaspa_rpc_url) [
    | inl e ↦ absurd (ground arith)
    | inr (rpc_url, has_url) ↦ elim (Option-cases request.kaspa_network) [
      | inl e ↦ absurd (ground arith)
      | inr (network, has_network) ↦
          let (types, described) = described_lem rpc_url network has_url has_network in
          told_of_request rpc_url network types has_url has_network described
    ]
  ]

-- The UTXOs that an attempt may spend: what the node answered to one of the two queries, or what the
-- cache held for this node, network and address for at most 20 seconds.
pub data IsOffered (first second : AttemptWorld) (c : SubmitterCache) (cache_key : Text)
    (utxos : List Utxo) : Type 0 where
  by_first : first.fetched ≡ ok utxos → IsOffered first second c cache_key utxos
  by_second : second.fetched ≡ ok utxos → IsOffered first second c cache_key utxos
  by_cache :
      (s : CachedUtxoSet)
      → c.utxo_cache ≡ some s
      → s.cache_key ≡ cache_key
      → s.entries ≡ utxos
      → first.age_ns ≤ 20 * 1_000_000_000
      → IsOffered first second c cache_key utxos

forced_lem :
    (key : Text) (age : ℕ) (fetched : Result Text (List Utxo))
    (others : SubmitterCache → SubmitterCache) (c : SubmitterCache) (utxos : List Utxo)
    → (load_utxos true key age fetched others c).0 ≡ ok utxos
    → fetched ≡ ok utxos
unfolding load_utxos cached after_fetch
forced_lem key age (ok entries) others c utxos h = cc
forced_lem key age (err e) others c utxos h = absurd (cc)

pub second-IsOffered :
    (first second : AttemptWorld) (c d : SubmitterCache) (key : Text) (utxos : List Utxo)
    → (load_utxos true key second.age_ns second.fetched second.others_fetching d).0 ≡ ok utxos
    → IsOffered first second c key utxos
second-IsOffered first second c d key utxos h =
    by_second (forced_lem key second.age_ns second.fetched second.others_fetching d utxos h)

served :
    (s : CachedUtxoSet) (first second : AttemptWorld) (c : SubmitterCache) (key : Text)
    (utxos : List Utxo)
    → c.utxo_cache ≡ some s
    → fresh_entries (some s) key first.age_ns ≡ some utxos
    → IsOffered first second c key utxos
unfolding fresh_entries
served s first second c key utxos e h =
    by_cache s e (ground (arith, text_eq_iff s.cache_key key)) (ground arith) (ground arith)

pub first-IsOffered :
    (first second : AttemptWorld) (c : SubmitterCache) (key : Text) (utxos : List Utxo)
    → (load_utxos false key first.age_ns first.fetched first.others_fetching c).0 ≡ ok utxos
    → IsOffered first second c key utxos
unfolding load_utxos cached after_fetch
first-IsOffered first second c key utxos h =
    elim (Option-cases (fresh_entries c.utxo_cache key first.age_ns)) [
      | inr (entries, hit) ↦ elim (Option-cases c.utxo_cache) [
        | inl e ↦ absurd (ground arith)
        | inr (s, e) ↦ served s first second c key utxos e (ground arith)
      ]
      | inl miss ↦ elim (Result-cases first.fetched) [
        | inl (entries, e) ↦ by_first (ground arith)
        | inr (m, e) ↦ absurd (ground arith)
      ]
    ]
