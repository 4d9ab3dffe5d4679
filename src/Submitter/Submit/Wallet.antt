-- ===== src/Submitter/Submit/Wallet.antt =====
-- crates/igra/src/submitter.rs: a wallet that is named by its keystore account alone.
use igra_foundry_sdk.Prelude.{
  ℕ, ◌≡◌, refl, sym, subst, ◌≢◌, Option, none, some, [], Result, ok, err, arith,
}
use igra_foundry_sdk.Prelude.Text.{Text}
use igra_foundry_sdk.Config.{IgraKaspaWalletConfig}
use igra_foundry_sdk.Keys.{
  KeyCrates, resolve_keystore_path, resolve_keystore_private_key, resolve_kaspa_private_key,
}
use igra_foundry_sdk.Submitter.Cache.{SubmitterCache}
use igra_foundry_sdk.Submitter.Submit.{
  IgraSubmitRequest, Crates, AttemptWorld, Prepared, prepare, returned, submit_prepared,
  submit_payload,
}

-- The wallet names no key, no mnemonic and no keystore file.
pub record OnlyAccount (w : IgraKaspaWalletConfig) : Type 0 where
  pub no_key : w.private_key ≡ none
  pub no_mnemonic : w.mnemonic ≡ none
  pub no_keystore : w.keystore ≡ none

emptied :
    (crates : KeyCrates) (w : IgraKaspaWalletConfig) (account : Option Text)
    → (e : Text) × (resolve_kaspa_private_key crates
          (record w {
            private_key = none;
            mnemonic = none;
            keystore = none;
            keystore_account = account;
          })
          none
        ≡ err e)
unfolding resolve_kaspa_private_key resolve_keystore_private_key resolve_keystore_path
emptied crates w none = (_, refl)
emptied crates w (some account) = (_, refl)

no_key_from_account :
    (crates : KeyCrates) (w : IgraKaspaWalletConfig)
    → OnlyAccount w
    → (e : Text) × (resolve_kaspa_private_key crates w none ≡ err e)
no_key_from_account crates w h =
    subst (λ v. (e : Text) × (resolve_kaspa_private_key crates v none ≡ err e))
      (λ i. record w {
        private_key = sym h.no_key i;
        mnemonic = sym h.no_mnemonic i;
        keystore = sym h.no_keystore i;
      })
      (emptied crates w w.keystore_account)

never_prepared :
    (crates : Crates) (request : IgraSubmitRequest) (p : Prepared)
    → OnlyAccount request.kaspa_wallet
    → prepare crates request ≢ ok p
unfolding prepare
never_prepared crates request p h =
    let (x, failed) = no_key_from_account crates.keys request.kaspa_wallet h in λ e. ground arith

not_submitted :
    (fuel : ℕ) (crates : Crates) (request : IgraSubmitRequest) (first second : AttemptWorld)
    (c : SubmitterCache) (prepared : Result Text Prepared)
    → ((p : Prepared) → prepared ≢ ok p)
    → (e : Text) × (submit_prepared fuel crates request first second c prepared
        ≡ returned (err e) c [])
unfolding submit_prepared
not_submitted fuel crates request first second c (err e) h = (e, refl)
not_submitted fuel crates request first second c (ok p) h = absurd (h p refl)

-- A wallet that is named by its keystore account alone, whatever its password, never submits: the request
-- ends in an error before anything is sent, with the cache as it was.
pub account_never_submits :
    (fuel : ℕ) (crates : Crates) (request : IgraSubmitRequest) (first second : AttemptWorld)
    (c : SubmitterCache)
    → OnlyAccount request.kaspa_wallet
    → (e : Text) × (submit_payload fuel crates request first second c ≡ returned (err e) c [])
unfolding submit_payload
account_never_submits fuel crates request first second c h =
    not_submitted fuel crates request first second c (prepare crates request)
      (λ p. never_prepared crates request p h)
