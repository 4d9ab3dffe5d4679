-- ===== src/Submitter/Submit.antt =====
-- crates/igra/src/submitter.rs: `submit_payload`. The node, and the crates for keys, hex and Kaspa
-- transactions, are parameters.
pub mod Origin
pub mod Delivers
pub mod Broadcast
pub mod Returns
pub mod Wallet
use igra_foundry_sdk.Prelude.{
  ℕ, ◌*◌, Bool, true, false, not, ◌&&◌, Option, none, some, List, [], ◌∷◌, ◌++◌, Result, ok, err,
  ◌>>=◌, ◌>>◌, ensure, ok_or, is_some, is_none, leb, length, if◌then◌else◌,
}
use igra_foundry_sdk.Prelude.Text.{Text, codes, decimal}
use igra_foundry_sdk.Config.{IgraKaspaWalletConfig}
use igra_foundry_sdk.Keys.{
  KeyCrates, KaspaNetworkType, kaspa_network_descriptor, resolve_kaspa_private_key,
  kaspa_address_from_private_key,
}
use igra_foundry_sdk.Payload.Fee.{igra_max_l2data_bytes}
use igra_foundry_sdk.Payload.Format.{Bytes, build_igra_l2data, normalize_hex_prefix}
use igra_foundry_sdk.Payload.Select.{Utxo, insufficient_utxos}
use igra_foundry_sdk.Payload.Mine.{KaspaTransaction}
use igra_foundry_sdk.Payload.Build.{Kaspa, mine_and_build_signed_payload_transaction}
use igra_foundry_sdk.Submitter.Cache.{SubmitterCache, load_utxos, invalidate_utxo_cache}

pub record IgraSubmitRequest : Type 0 where
  pub l2_tx_hash : Text
  pub raw_tx_bytes : Bytes
  pub tx_id_prefix : Text
  pub mining_timeout_secs : ℕ
  pub kaspa_rpc_url : Option Text
  pub kaspa_network : Option Text
  pub payload_compression : Option Text
  pub kaspa_wallet : IgraKaspaWalletConfig

pub record IgraSubmitResult : Type 0 where
  pub kaspa_tx_id : Text
  pub payload_nonce : ℕ

-- The other crates: keys, `hex::decode`, the Kaspa parameters of a network, and whether the node at an
-- address can be reached (`none`) or why not.
pub record Crates : Type 0 where
  pub keys : KeyCrates
  pub decode_hex : Text → Result Text Bytes
  pub kaspa : KaspaNetworkType → Kaspa
  pub connect : Text → Option Text

-- What one attempt meets: the age of the cache, the answer of the node to the query, what other tasks do
-- to the cache meanwhile, the clock of the mining loop, a failure of the blocking task, the answer to
-- the broadcast, and what other tasks do to the cache during it.
pub record AttemptWorld : Type 0 where
  pub age_ns : ℕ
  pub fetched : Result Text (List Utxo)
  pub others_fetching : SubmitterCache → SubmitterCache
  pub elapsed : ℕ → ℕ
  pub join_error : Option Text
  pub answer : KaspaTransaction → Result Text Text
  pub others_sending : SubmitterCache → SubmitterCache

-- What is known before the first attempt.
pub record Prepared : Type 0 where
  pub payload_header : ℕ
  pub l2data : Bytes
  pub network_type : KaspaNetworkType
  pub private_key : Bytes
  pub source_address : Text
  pub prefix_bytes : Bytes
  pub timeout_ns : ℕ
  pub cache_key : Text

l2data_too_large : ℕ → Text
l2data_too_large n =
    codes "IGRA_PAYLOAD_001: L2Data size "
    ++ decimal n
    ++ codes " bytes exceeds max "
    ++ decimal igra_max_l2data_bytes
    ++ codes " bytes"

abbrev is_blank : Text → Bool
is_blank [] = true
is_blank (c ∷ s) = false

abbrev pub connected : Option Text → Result Text (Unit {0})
connected none = ok tt
connected (some e) = err (codes "IGRA submit error: failed to connect to Kaspa RPC: " ++ e)

abbrev pub decoded : Result Text Bytes → Result Text Bytes
decoded (ok b) = ok b
decoded (err e) = err (codes "IGRA config error: `tx_id_prefix` is invalid hex: " ++ e)

-- The keystore directory is not passed on: it is always `None`.
pub prepare : Crates → IgraSubmitRequest → Result Text Prepared
unfolding l2data_too_large
prepare crates request = do
  (header, l2data) ← build_igra_l2data request.raw_tx_bytes request.payload_compression
  ensure (leb (length l2data) igra_max_l2data_bytes) (l2data_too_large (length l2data))
  rpc_url ← ok_or request.kaspa_rpc_url (codes "IGRA config error: `kaspa_rpc_url` is required")
  network ← ok_or request.kaspa_network (codes "IGRA config error: `kaspa_network` is required")
  (network_type, address_prefix) ← kaspa_network_descriptor network
  private_key ← resolve_kaspa_private_key crates.keys request.kaspa_wallet none
  source_address ← kaspa_address_from_private_key crates.keys private_key address_prefix
  connected (crates.connect rpc_url)
  let prefix = normalize_hex_prefix request.tx_id_prefix
  ensure (not (is_blank prefix)) (codes "IGRA config error: `tx_id_prefix` cannot be empty")
  prefix_bytes ← decoded (crates.decode_hex prefix)
  ok (record {
    payload_header = header;
    l2data = l2data;
    network_type = network_type;
    private_key = private_key;
    source_address = source_address;
    prefix_bytes = prefix_bytes;
    timeout_ns = request.mining_timeout_secs * 1_000_000_000;
    cache_key = rpc_url ++ codes "|" ++ network ++ codes "|" ++ source_address;
  })

-- An attempt returns, goes on to the next one, or runs out of the fuel of mining. `sent` lists what was
-- handed to the node.
pub data Flow : Type 0 where
  returned : Result Text IgraSubmitResult → SubmitterCache → List KaspaTransaction → Flow
  continues : SubmitterCache → List KaspaTransaction → Flow
  out_of_fuel : Flow

no_utxos_message : IgraSubmitRequest → Text → Text
no_utxos_message request source_address =
    insufficient_utxos source_address
    ++ (if is_some request.kaspa_wallet.mnemonic && is_none request.kaspa_wallet.mnemonic_passphrase
        then codes
            "; hint: if this mnemonic was created/imported with a non-empty BIP39 passphrase, set --mnemonic-passphrase-kaspa (or KASPA_MNEMONIC_PASSPHRASE) to match the funded address"
        else [])

-- The answer to the broadcast; `second` is whether `attempt == 1`.
pub after_broadcast : Bool → ℕ → KaspaTransaction → Result Text Text → SubmitterCache → Flow
after_broadcast second nonce tx (ok tx_id) c =
    returned (ok (record { kaspa_tx_id = tx_id; payload_nonce = nonce })) (invalidate_utxo_cache c)
      (tx ∷ [])
after_broadcast true nonce tx (err e) c =
    returned (err (codes "IGRA submit error: " ++ e)) c (tx ∷ [])
after_broadcast false nonce tx (err e) c = continues c (tx ∷ [])

pub after_build :
    Bool → AttemptWorld → Option (Result Text (ℕ × KaspaTransaction)) → SubmitterCache → Flow
unfolding after_broadcast
after_build second world none c = out_of_fuel
after_build second world (some (err e)) c = returned (err e) c []
after_build second world (some (ok (nonce, tx))) c =
    after_broadcast second nonce tx (world.answer tx)
      (world.others_sending (invalidate_utxo_cache c))

-- A blocking task that cannot be joined is an error of its own.
pub joined :
    Option Text
    → Option (Result Text (ℕ × KaspaTransaction))
    → Option (Result Text (ℕ × KaspaTransaction))
joined none built = built
joined (some e) built =
    some (err (codes "IGRA submit error: failed to join Kaspa tx builder task: " ++ e))

pub after_load :
    ℕ
    → Crates
    → IgraSubmitRequest
    → Prepared
    → Bool
    → AttemptWorld
    → Result Text (List Utxo) × SubmitterCache
    → Flow
unfolding after_build joined no_utxos_message
after_load fuel crates request p second world (err e, c) = returned (err e) c []
after_load fuel crates request p true world (ok [], c) =
    returned (err (no_utxos_message request p.source_address)) c []
after_load fuel crates request p false world (ok [], c) = continues c []
after_load fuel crates request p second world (ok (u ∷ us), c) =
    after_build second world
      (joined world.join_error (
        mine_and_build_signed_payload_transaction fuel (crates.kaspa p.network_type) p.private_key
          p.source_address p.payload_header p.l2data p.prefix_bytes world.elapsed p.timeout_ns
          (u ∷ us)))
      c

pub attempt :
    ℕ → Crates → IgraSubmitRequest → Prepared → Bool → AttemptWorld → SubmitterCache → Flow
unfolding after_load
attempt fuel crates request p second world c =
    after_load fuel crates request p second world
      (load_utxos second p.cache_key world.age_ns world.fetched world.others_fetching c)

-- `for attempt in 0..=1`, and the error behind the loop.
pub after_second : List KaspaTransaction → Flow → Flow
after_second sent (returned r c more) = returned r c (sent ++ more)
after_second sent (continues c more) =
    returned (err (codes "IGRA submit error: failed to submit Kaspa transaction")) c (sent ++ more)
after_second sent out_of_fuel = out_of_fuel

pub after_first : ℕ → Crates → IgraSubmitRequest → Prepared → AttemptWorld → Flow → Flow
unfolding attempt after_second
after_first fuel crates request p world (returned r c sent) = returned r c sent
after_first fuel crates request p world (continues c sent) =
    after_second sent (attempt fuel crates request p true world c)
after_first fuel crates request p world out_of_fuel = out_of_fuel

pub submit_prepared :
    ℕ
    → Crates
    → IgraSubmitRequest
    → AttemptWorld
    → AttemptWorld
    → SubmitterCache
    → Result Text Prepared
    → Flow
unfolding after_first attempt
submit_prepared fuel crates request first second c (err e) = returned (err e) c []
submit_prepared fuel crates request first second c (ok p) =
    after_first fuel crates request p second (attempt fuel crates request p false first c)

pub submit_payload :
    ℕ → Crates → IgraSubmitRequest → AttemptWorld → AttemptWorld → SubmitterCache → Flow
unfolding submit_prepared prepare
submit_payload fuel crates request first second c =
    submit_prepared fuel crates request first second c (prepare crates request)
