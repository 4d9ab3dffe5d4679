-- ===== src/Transport/Service.antt =====
-- crates/igra/src/transport.rs: `IgraTransport` as a value, its builders, and `request` as a whole,
-- which `Service::call` passes on to.
pub mod Transparent
use igra_foundry_sdk.Prelude.{ℕ, Bool, true, false, Option, none, some, Result, ok, err, unwrap_or}
use igra_foundry_sdk.Prelude.Text.{Text}
use igra_foundry_sdk.Config.{IgraKaspaWalletConfig, default_wallet}
use igra_foundry_sdk.Payload.Format.{normalize_hex_prefix}
use igra_foundry_sdk.Store.Db.{Db}
use igra_foundry_sdk.Store.Lifecycle.{IgraStore, map_option}
use igra_foundry_sdk.Store.Open.{IgraStoreConfig}
use igra_foundry_sdk.Submitter.Submit.{IgraSubmitRequest, IgraSubmitResult}
use igra_foundry_sdk.Transport.Route.{
  WireCrates, RequestPacket, Route, forward, reject, intercept, route,
}
use igra_foundry_sdk.Transport.Tracked.{Settings, SendWorld, Progress, start}
use igra_foundry_sdk.Transport.Send.{raw_send}

abbrev default_mining_timeout_secs : ℕ
default_mining_timeout_secs = 120

pub record IgraTransportConfig : Type 0 where
  pub tx_id_prefix : Option Text
  pub mining_timeout_secs : Option ℕ
  pub kaspa_rpc_url : Option Text
  pub kaspa_network : Option Text
  pub payload_compression : Option Text
  pub kaspa_wallet : IgraKaspaWalletConfig

-- `submit_payload` of the submitter, as it answers one send.
abbrev pub Submitter : Type 0
Submitter = IgraSubmitRequest → Result Text IgraSubmitResult

-- The wrapped transport and its answers are parameters: `inner` of a packet is what it answers.
pub record IgraTransport (Reply : Type 0) : Type 0 where
  pub inner : RequestPacket → Result Text Reply
  pub enabled : Bool
  pub settings : Settings
  pub submitter : Submitter

-- The response that `request` gives: the wrapped transport's own, or the hash under the id.
pub data Response (Reply : Type 0) : Type 0 where
  passed_on : Reply → Response Reply
  l2_tx_hash_response : ℕ → Text → Response Reply

-- `if self.x.is_none() { self.x = config.x.clone() }`
abbrev or_else : {A : Type 0} → Option A → Option A → Option A
or_else none o = o
or_else (some a) o = some a

pub fill_endpoints : IgraStoreConfig → Settings → Settings
fill_endpoints config settings = record settings {
  kaspa_rpc_url = or_else settings.kaspa_rpc_url config.kaspa_rpc_url;
  kaspa_network = or_else settings.kaspa_network config.kaspa_network;
}

-- `opened` is what `IgraStore::new(config)` answers, an error as the text of its report; it is called when IGRA mode is enabled.
abbrev store_if_opened : Result Text IgraStore → Option IgraStore → Option IgraStore
store_if_opened (ok store) before = some store
store_if_opened (err e) before = before

abbrev store_after : Bool → Result Text IgraStore → Option IgraStore → Option IgraStore
store_after false opened before = before
store_after true opened before = store_if_opened opened before

module _ {Reply : Type 0} where
  -- `in_process` is `InProcessKaspaPayloadSubmitter::default()`.
  unfoldable pub new : (RequestPacket → Result Text Reply) → Bool → Submitter → IgraTransport Reply
  new inner enabled in_process = record {
    inner = inner;
    enabled = enabled;
    settings = record {
      store = none;
      tx_id_prefix = none;
      mining_timeout_secs = default_mining_timeout_secs;
      kaspa_rpc_url = none;
      kaspa_network = none;
      payload_compression = none;
      kaspa_wallet = default_wallet;
    };
    submitter = in_process;
  }

  unfoldable pub with_transport_config :
      IgraTransportConfig → IgraTransport Reply → IgraTransport Reply
  with_transport_config config self = record self {
    settings = record self.settings {
      tx_id_prefix = map_option normalize_hex_prefix config.tx_id_prefix;
      mining_timeout_secs = unwrap_or config.mining_timeout_secs default_mining_timeout_secs;
      kaspa_rpc_url = config.kaspa_rpc_url;
      kaspa_network = config.kaspa_network;
      payload_compression = config.payload_compression;
      kaspa_wallet = config.kaspa_wallet;
    };
  }

  pub with_submitter : Submitter → IgraTransport Reply → IgraTransport Reply
  with_submitter submitter self = record self { submitter = submitter }

  pub with_store_config :
      IgraStoreConfig → Result Text IgraStore → IgraTransport Reply → IgraTransport Reply
  unfolding fill_endpoints
  with_store_config config opened self = record self {
    settings = record (fill_endpoints config self.settings) {
      store = store_after self.enabled opened self.settings.store;
    };
  }

  abbrev opened_or_err :
      Bool → Result Text IgraStore → IgraTransport Reply → Result Text (IgraTransport Reply)
  opened_or_err false opened self = ok self
  opened_or_err true (ok store) self =
      ok (record self { settings = record self.settings { store = some store } })
  opened_or_err true (err e) self = err e

  pub try_with_store_config :
      IgraStoreConfig
      → Result Text IgraStore
      → IgraTransport Reply
      → Result Text (IgraTransport Reply)
  unfolding fill_endpoints
  try_with_store_config config opened self =
      opened_or_err self.enabled opened
        (record self { settings = fill_endpoints config self.settings })

  unfoldable pub with_store_for_tests : IgraStore → IgraTransport Reply → IgraTransport Reply
  with_store_for_tests store self = record self {
    settings = record self.settings { store = some store };
  }

  unfoldable pub with_submitter_for_tests : Submitter → IgraTransport Reply → IgraTransport Reply
  with_submitter_for_tests submitter self = record self { submitter = submitter }

  -- `success_l2_tx_hash_response` under the id, or the error of the send.
  abbrev respond_to : ℕ → Result Text Text → Result Text (Response Reply)
  respond_to id (ok payload) = ok (l2_tx_hash_response id payload)
  respond_to id (err e) = err e

  abbrev pub replied : Result Text Reply → Result Text (Response Reply)
  replied (ok r) = ok (passed_on r)
  replied (err e) = err e

  abbrev sent :
      ℕ → Option (Result Text Text × Progress) → Option (Result Text (Response Reply) × Progress)
  sent id none = none
  sent id (some (r, p)) = some (respond_to id r, p)

  pub follow :
      IgraTransport Reply
      → SendWorld
      → Text
      → Db
      → Route
      → Option (Result Text (Response Reply) × Progress)
  follow self w correlation_id db (forward packet) = some (replied (self.inner packet), start db)
  follow self w correlation_id db (reject reason) = some (err reason, start db)
  follow self w correlation_id db (intercept send) =
      sent send.id
        (raw_send self.settings (record w { submit = self.submitter }) correlation_id send db)

  -- The world of the send says what its calls on the store meet; its submitter is that of the
  -- transport. `none` is a polling loop that was given too few rounds.
  unfoldable pub request :
      IgraTransport Reply
      → WireCrates
      → SendWorld
      → Text
      → RequestPacket
      → Db
      → Option (Result Text (Response Reply) × Progress)
  unfolding follow
  request self crates w correlation_id packet db =
      follow self w correlation_id db (route crates self.enabled packet)
