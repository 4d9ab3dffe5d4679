-- ===== src/Payload/Build/Checked.antt =====
-- crates/igra/src/payload.rs: what is true of a transaction that is handed over for broadcast.
use igra_foundry_sdk.Prelude.{
  ℕ, ◌+◌, ◌≤◌, ◌<◌, ◌^◌, ◌≡◌, refl, ap, sym, ◌∙◌, subst, true, Option, none, some, List, Result, ok,
  err, ◌>>=◌, arith, map, length,
}
use igra_foundry_sdk.Prelude.Text.{Text, codes, starts_with}
use igra_foundry_sdk.Payload.Fee.{max_standard_kaspa_tx_mass}
use igra_foundry_sdk.Payload.Format.{Bytes, build_payload_with_nonce}
use igra_foundry_sdk.Payload.Select.{Utxo, Selection, funding}
use igra_foundry_sdk.Payload.Mine.{KaspaTransaction, mine_loop}
use igra_foundry_sdk.Payload.Mine.Mined.{PaysAtMost, Shape, IsMined, Sound, mine_loop-Sound}
use igra_foundry_sdk.Payload.Build.{
  Kaspa, prefixed, unsigned, check_signed, sign_and_check, finish, mine_funded, unless_refused,
  mine_and_build_signed_payload_transaction,
}

-- What the Kaspa crates say of signing and of ids: a signature fills in scripts that are no part of
-- what the model keeps, and the mass is no part of the id.
pub record Signs (kaspa : Kaspa) : Type 0 where
  pub keeps :
      (key : Bytes) (tx signed : KaspaTransaction) (us : List Utxo)
      → kaspa.sign key tx us ≡ ok signed
      → (signed.inputs ≡ tx.inputs) × (signed.outputs ≡ tx.outputs) × (signed.payload ≡ tx.payload)
  pub mass_free :
      (tx : KaspaTransaction) (m : ℕ) → kaspa.tx_id (record tx { mass = m }) ≡ kaspa.tx_id tx

unless_refused_lem :
    {A : Type 0} (c : Result Text (Unit {0})) (r : Option (Result Text A)) (a : A)
    → unless_refused c r ≡ some (ok a)
    → r ≡ some (ok a)
unfolding unless_refused
unless_refused_lem (err e) r a h = absurd (cc)
unless_refused_lem (ok _) r a h = h

module _ (kaspa : Kaspa) (laws : Signs kaspa) (prefix : Bytes) where
  check_signed_lem :
      (selected : List Utxo) (n n' : ℕ) (signed tx : KaspaTransaction)
      → check_signed kaspa prefix selected n signed ≡ ok (n', tx)
      → (n' ≡ n)
        × (tx.inputs ≡ signed.inputs)
        × (tx.outputs ≡ signed.outputs)
        × (tx.payload ≡ signed.payload)
        × (starts_with (kaspa.tx_id signed) prefix ≡ true)
        × (tx.mass ≤ max_standard_kaspa_tx_mass)
        × (tx ≡ record signed { mass = tx.mass })
        × (kaspa.verify signed selected ≡ ok tt)
  unfolding check_signed
  check_signed_lem selected n n' signed tx e = ground arith

  -- The transaction that is broadcast: it was chosen, mined and signed from these inputs.
  pub record IsBuilt (key : Bytes) (source : Text) (header : ℕ) (l2data : Bytes) (utxos : List Utxo)
      (n : ℕ) (tx : KaspaTransaction) : Type 0 where
    pub selection : Selection
    pub output : ℕ
    pub funded : funding (1 + length l2data + 4) source utxos ≡ ok (selection, output)
    pub spends : tx.inputs ≡ map (λ (u : Utxo). u.outpoint) selection.selected
    pub pays : PaysAtMost output (kaspa.pay_to_address_script source) tx.outputs
    pub carries : tx.payload ≡ build_payload_with_nonce header l2data n
    pub in_range : n < 2 ^ 32
    pub found : starts_with (kaspa.tx_id tx) prefix ≡ true
    pub standard : tx.mass ≤ max_standard_kaspa_tx_mass
    -- it is a signed transaction that verifies, with its mass
    pub mined : KaspaTransaction
    pub signed : KaspaTransaction
    pub is_signed : kaspa.sign key mined selection.selected ≡ ok signed
    pub verifies : kaspa.verify signed selection.selected ≡ ok tt
    pub is_whole : tx ≡ record signed { mass = tx.mass }

  signed_lem :
      (key : Bytes) (source : Text) (header : ℕ) (l2data : Bytes) (utxos : List Utxo)
      (s : Selection) (output n n' : ℕ) (mined tx : KaspaTransaction)
      (r : Result Text KaspaTransaction)
      → funding (1 + length l2data + 4) source utxos ≡ ok (s, output)
      → IsMined header l2data
          (map (λ (u : Utxo). u.outpoint) s.selected)
          output
          (kaspa.pay_to_address_script source)
          kaspa.tx_id
          prefix
          n
          mined
      → kaspa.sign key mined s.selected ≡ r
      → (prefixed (codes "IGRA submit error: failed to sign Kaspa tx: ") r
          >>= check_signed kaspa prefix s.selected n)
        ≡ ok (n', tx)
      → IsBuilt key source header l2data utxos n' tx
  signed_lem key source header l2data utxos s output n n' mined tx (err m) f h e c = absurd (cc)
  signed_lem key source header l2data utxos s output n n' mined tx (ok signed) f h e c =
      let (same, ins, outs, pay, found, std, whole, verified) =
        check_signed_lem s.selected n n' signed tx c in
      let (ins', outs', pay') = laws.keeps key mined signed s.selected e in
      record {
        selection = s;
        output = output;
        funded = f;
        spends = ins ∙ ins' ∙ h.same_inputs;
        pays =
            subst (PaysAtMost output (kaspa.pay_to_address_script source)) (sym (outs ∙ outs'))
              h.pays;
        carries = rw same (pay ∙ pay' ∙ h.carries);
        in_range = rw same h.in_range;
        found =
            ap (λ t. starts_with (kaspa.tx_id t) prefix) whole
            ∙ ap (λ t. starts_with t prefix) (laws.mass_free signed tx.mass)
            ∙ found;
        standard = std;
        mined = mined;
        signed = signed;
        is_signed = e;
        verifies = verified;
        is_whole = whole;
      }

  unsigned-Shape :
      (source : Text) (header : ℕ) (l2data : Bytes) (s : Selection) (output : ℕ)
      → Shape header l2data
          (map (λ (u : Utxo). u.outpoint) s.selected)
          output
          (kaspa.pay_to_address_script source)
          (unsigned kaspa source header l2data (s, output))
  unfolding unsigned
  unsigned-Shape source header l2data s output = record {
    same_inputs = refl;
    pays = (omega arith, refl);
    nonce = 0;
    carries = refl;
  }

  finish_lem :
      (key : Bytes) (source : Text) (header : ℕ) (l2data : Bytes) (utxos : List Utxo)
      (s : Selection) (output n : ℕ) (tx : KaspaTransaction) (elapsed : ℕ → ℕ) (timeout_ns : ℕ)
      (m : Option (Result Text (ℕ × KaspaTransaction)))
      → funding (1 + length l2data + 4) source utxos ≡ ok (s, output)
      → Sound header l2data
          (map (λ (u : Utxo). u.outpoint) s.selected)
          output
          (kaspa.pay_to_address_script source)
          kaspa.tx_id
          prefix
          elapsed
          timeout_ns
          m
      → finish kaspa key prefix s.selected m ≡ some (ok (n, tx))
      → IsBuilt key source header l2data utxos n tx
  unfolding finish sign_and_check
  finish_lem key source header l2data utxos s output n tx elapsed timeout_ns none f h e =
      absurd (cc)
  finish_lem key source header l2data utxos s output n tx elapsed timeout_ns (some (err x)) f h e =
      absurd (cc)
  finish_lem key source header l2data utxos s output n tx elapsed timeout_ns (some (ok (k, mined)))
        f h e =
      signed_lem key source header l2data utxos s output k n mined tx
        (kaspa.sign key mined s.selected) f h refl (cc)

  mine_funded_lem :
      (fuel : ℕ) (key : Bytes) (source : Text) (header : ℕ) (l2data : Bytes) (elapsed : ℕ → ℕ)
      (timeout_ns : ℕ) (utxos : List Utxo) (n : ℕ) (tx : KaspaTransaction)
      (r : Result Text (Selection × ℕ))
      → funding (1 + length l2data + 4) source utxos ≡ r
      → mine_funded fuel kaspa key source header l2data prefix elapsed timeout_ns r
        ≡ some (ok (n, tx))
      → IsBuilt key source header l2data utxos n tx
  unfolding mine_funded
  mine_funded_lem fuel key source header l2data elapsed timeout_ns utxos n tx (err m) f e =
      absurd (cc)
  mine_funded_lem fuel key source header l2data elapsed timeout_ns utxos n tx (ok (s, output)) f e =
      finish_lem key source header l2data utxos s output n tx elapsed timeout_ns
        (mine_loop kaspa.tx_id prefix elapsed timeout_ns fuel 0 0
          (unsigned kaspa source header l2data (s, output)))
        f
        (mine_loop-Sound header l2data _ output _ kaspa.tx_id prefix elapsed timeout_ns fuel 0 0
          (unsigned kaspa source header l2data (s, output))
          (unsigned-Shape source header l2data s output) (omega arith))
        e

  -- A transaction that is handed over spends inputs whose choice succeeded, has one output, to
  -- the source address, of at most what the fee leaves of them, carries the L2 data under the
  -- returned nonce, is signed with the key, passes the verification of its signatures, and has an
  -- id with the prefix also after signing, and a standard mass, when signing keeps inputs, outputs and payload and the mass is no part of the id.
  pub built_lem :
      (fuel : ℕ) (key : Bytes) (source : Text) (header : ℕ) (l2data : Bytes) (elapsed : ℕ → ℕ)
      (timeout_ns : ℕ) (utxos : List Utxo) (n : ℕ) (tx : KaspaTransaction)
      → mine_and_build_signed_payload_transaction fuel kaspa key source header l2data prefix elapsed
          timeout_ns utxos
        ≡ some (ok (n, tx))
      → IsBuilt key source header l2data utxos n tx
  unfolding mine_and_build_signed_payload_transaction
  built_lem fuel key source header l2data elapsed timeout_ns utxos n tx e =
      mine_funded_lem fuel key source header l2data elapsed timeout_ns utxos n tx _ refl
        (unless_refused_lem _ _ _ e)
