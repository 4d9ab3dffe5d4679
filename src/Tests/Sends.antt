-- ===== src/Tests/Sends.antt =====
-- crates/igra/src/transport.rs: a transport built with IGRA mode off, and one whole send.
use igra_foundry_sdk.Prelude.{
  ◌+◌, ◌<◌, ◌≡◌, refl, true, false, none, some, [], ◌∷◌, Result, ok, err, List, arith, find,
}
use igra_foundry_sdk.Prelude.Text.{Text, codes}
use igra_foundry_sdk.Prelude.Words.{saturating_add, saturating_mul}
use igra_foundry_sdk.Config.{default_wallet}
use igra_foundry_sdk.Store.Db.{empty_db}
use igra_foundry_sdk.Store.Lock.{can_acquire, timeout_ms}
use igra_foundry_sdk.Submitter.Submit.{IgraSubmitResult}
use igra_foundry_sdk.Transport.Route.{RequestPacket, single}
use igra_foundry_sdk.Store.Open.{IgraStoreConfig}
use igra_foundry_sdk.Transport.Tracked.{SendWorld, Progress, start}
use igra_foundry_sdk.Transport.Send.{raw_send}
use igra_foundry_sdk.Transport.Send.Calm.{calm}
use igra_foundry_sdk.Transport.Send.Complete.{IsComplete, raw_send-IsComplete}
use igra_foundry_sdk.Transport.Service.{IgraTransport, IgraTransportConfig, new, replied, request}
use igra_foundry_sdk.Transport.Service.Transparent.{
  Builder, built, transport_config, try_store_config, disabled_is_transparent,
}
use igra_foundry_sdk.Tests.Requests.{crates, raw_request, send, settings, tracked, is_tracked}

abbrev result : IgraSubmitResult
result = record { kaspa_tx_id = codes "97b1ab"; payload_nonce = 3 }

is_new : can_acquire (find (codes "0xa1") empty_db.sender_locks) tracked.lock_owner_id 100 ≡ true
unfolding can_acquire find
is_new = refl

has_time : 100 < saturating_add 100 (timeout_ms 1)
unfolding saturating_add timeout_ms saturating_mul
has_time = omega arith

raw_send-IsComplete_example :
    (p : Progress) × (raw_send settings
        (calm (λ k. 100 + k) 100 (λ r. ok result) (λ hash. ok hash))
        (codes "c")
        send
        empty_db
      ≡ some (ok (codes "0xbeef"), p))
    × IsComplete tracked result p.db
unfolding find
raw_send-IsComplete_example =
    raw_send-IsComplete settings send tracked (codes "c") (codes "97b1") (λ k. 100 + k) 100
      (λ r. ok result) (λ hash. ok hash) result (codes "0xbeef") empty_db refl is_tracked tt is_new
      refl (omega arith) has_time refl refl

abbrev config : IgraTransportConfig
config = record {
  tx_id_prefix = some (codes "0x97b1");
  mining_timeout_secs = none;
  kaspa_rpc_url = none;
  kaspa_network = none;
  payload_compression = none;
  kaspa_wallet = default_wallet;
}

abbrev inner : RequestPacket → Result Text Text
inner packet = ok (codes "0x1")

abbrev store_settings : IgraStoreConfig
store_settings = record {
  db_path = none;
  cache_dir = none;
  kaspa_network = some (codes "testnet-10");
  expected_el_chain_id = some 38836;
  el_rpc_url = none;
  kaspa_rpc_url = none;
  sender_lock_timeout_secs = none;
  completed_retention_hours = none;
  failed_retention_hours = none;
  max_db_size_mb = none;
}

abbrev calls : List Builder
calls =
    transport_config config
    ∷ try_store_config store_settings (err (codes "unable to open database file"))
    ∷ []

abbrev world : SendWorld
world = calm (λ k. 100) 100 (λ r. ok result) (λ hash. ok hash)

disabled_is_transparent_example :
    (t : IgraTransport Text) × ((built calls (new inner false (λ r. ok result)) ≡ ok t)
      × (t.settings.store ≡ none)
      × (request t crates world (codes "c") (single raw_request) empty_db
          ≡ some (replied (inner (single raw_request)), start empty_db)))
disabled_is_transparent_example =
    disabled_is_transparent inner (λ r. ok result) calls crates world (codes "c")
      (single raw_request) empty_db
