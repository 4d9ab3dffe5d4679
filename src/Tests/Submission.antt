-- ===== src/Tests/Submission.antt =====
-- crates/igra/src/submitter.rs, config.rs: a configuration that passes, and a submission.
use igra_foundry_sdk.Prelude.{◌*◌, ◌<◌, arith, ◌≡◌, refl, true, false, none, some, [], ◌∷◌, ok, err}
use igra_foundry_sdk.Prelude.Text.{Text, codes, trim, one_of, text_eq, byte_len, is_hexdigit}
use igra_foundry_sdk.Config.{IgraConfig, default_wallet, validate}
use igra_foundry_sdk.Config.Valid.{IsUsable, validate-IsUsable}
use igra_foundry_sdk.Keys.{KeyCrates}
use igra_foundry_sdk.Submitter.Cache.{default_cache}
use igra_foundry_sdk.Submitter.Submit.{
  IgraSubmitRequest, Crates, AttemptWorld, returned, submit_payload,
}
use igra_foundry_sdk.Submitter.Submit.Origin.{IsOffered}
use igra_foundry_sdk.Submitter.Submit.Delivers.{Delivers}
use igra_foundry_sdk.Submitter.Submit.Broadcast.{Carries, submit_payload-Delivers}
use igra_foundry_sdk.Submitter.Submit.Returns.{IsReturned, submit_payload_ends}
use igra_foundry_sdk.Submitter.Submit.Wallet.{account_never_submits}
use igra_foundry_sdk.Tests.Kaspa.{crates, crates-Signs, coin}

abbrev config : IgraConfig
config = record {
  enabled = true;
  el_rpc_url = some (codes "https://el");
  kaspa_rpc_url = some (codes "grpc://kaspa");
  expected_el_chain_id = some 38836;
  kaspa_network = some (codes "testnet-10");
  tx_id_prefix = some (codes "97b1");
  el_receipt_timeout_secs = some 60;
  mining_timeout_secs = none;
  payload_compression = none;
  sender_lock_timeout_secs = none;
  completed_retention_hours = none;
  failed_retention_hours = none;
  max_db_size_mb = none;
  kaspa_wallet = default_wallet;
}

passes : validate (λ url. ok (codes "http")) config ≡ ok tt
unfolding validate trim one_of text_eq byte_len is_hexdigit
passes = refl

validate-IsUsable_example : IsUsable config
validate-IsUsable_example = validate-IsUsable (λ url. ok (codes "http")) config refl passes

abbrev keys : KeyCrates
keys = record {
  parse_b256 = λ s. some (1 ∷ []);
  is_file = λ s. false;
  read_file = λ s. ok s;
  mnemonic_seed = λ phrase passphrase. ok (1 ∷ []);
  master_key = λ seed. ok seed;
  parse_path = λ s. ok s;
  derive_path = λ key path. ok key;
  child_number = λ index. ok index;
  derive_child = λ key child. ok key;
  decrypt_keystore = λ path password. ok (1 ∷ []);
  address = λ key network. ok (codes "addr");
  join_path = λ dir name. name;
}

-- A node that refuses the first transaction; ids that end in 2 have the prefix.
abbrev node : Crates
node = record {
  keys = keys;
  decode_hex = λ s. ok (2 ∷ []);
  kaspa = λ network. crates;
  connect = λ url. none;
}

abbrev request : IgraSubmitRequest
request = record {
  l2_tx_hash = codes "0xbeef";
  raw_tx_bytes = 7 ∷ [];
  tx_id_prefix = codes "02";
  mining_timeout_secs = 1;
  kaspa_rpc_url = some (codes "grpc://kaspa");
  kaspa_network = some (codes "testnet-10");
  payload_compression = none;
  kaspa_wallet = record default_wallet { private_key = some (codes "01") };
}

abbrev refusing : AttemptWorld
refusing = record {
  age_ns = 0;
  fetched = ok (coin ∷ []);
  others_fetching = λ c. c;
  elapsed = λ i. i;
  join_error = none;
  answer = λ tx. err (codes "refused");
  others_sending = λ c. c;
}

abbrev accepting : AttemptWorld
accepting = record refusing { answer = λ tx. ok (codes "id") }

submit_payload-Delivers_example :
    Delivers
      (Carries node (λ network. crates-Signs) (IsOffered refusing accepting default_cache) request)
      2
      (submit_payload 3 node request refusing accepting default_cache)
submit_payload-Delivers_example =
    submit_payload-Delivers node (λ network. crates-Signs) request refusing accepting default_cache
      3

-- The timeout is over in the third round.
abbrev slow : AttemptWorld → AttemptWorld
slow w = record w { elapsed = λ i. i * 500_000_001 }

abbrev by_account : IgraSubmitRequest
by_account = record request {
  kaspa_wallet = record default_wallet {
    keystore_account = some (codes "main");
    password = some (codes "pw");
  };
}

account_never_submits_example :
    (e : Text) × (submit_payload 3 node by_account refusing accepting default_cache
      ≡ returned (err e) default_cache [])
account_never_submits_example =
    account_never_submits 3 node by_account refusing accepting default_cache
      (record { no_key = refl; no_mnemonic = refl; no_keystore = refl })

mining_late : request.mining_timeout_secs * 1_000_000_000 < 2 * 500_000_001
mining_late = omega arith

submit_payload_ends_example :
    IsReturned (submit_payload 3 node request (slow refusing) (slow accepting) default_cache)
submit_payload_ends_example =
    submit_payload_ends 3 2 node request (slow refusing) (slow accepting) default_cache mining_late
      mining_late (omega arith)
