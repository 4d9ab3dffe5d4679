-- ===== src/Store/Nonce/Advance.antt =====
-- crates/igra/src/store.rs: the expected nonce before and after `mark_submitted_in_order_nonce`.
use igra_foundry_sdk.Prelude.{ℕ, ◌+◌, ◌≤◌, ◌<◌, ◌≡◌, arith, if◌then◌else◌, find-upsert, ◌==◌}
use igra_foundry_sdk.Prelude.Text.{Text, text_eq, text_eq_iff}
use igra_foundry_sdk.Prelude.Words.{as_i64, as_u64-as_i64, u64_max}
use igra_foundry_sdk.Store.Db.{Db, no_faults, exec, transaction}
use igra_foundry_sdk.Store.Nonce.{set_expected, mark_submitted_in_order_nonce, advance_expected}
use igra_foundry_sdk.Store.Nonce.Classification.{expected}

pub expected-set_expected :
    (db : Db) (sender other : Text) (nonce now d : ℕ)
    → nonce ≤ u64_max
    → expected (set_expected db sender nonce now) other d
      ≡ (if text_eq sender other then nonce else expected db other d)
unfolding set_expected
expected-set_expected db sender other nonce now d h =
    rw
      (find-upsert sender other
        (record { next_expected_nonce = as_i64 nonce; updated_at_ms = as_i64 now })
        db.sender_nonce_state)
      (ground (arith, as_u64-as_i64 nonce))

-- When no statement fails, the submission of the expected nonce, below the largest u64, makes the
-- next one expected. A sender with another expected nonce, and every other sender, keeps its own.
pub expected-mark :
    (db : Db) (sender other : Text) (nonce now d : ℕ)
    → nonce < u64_max
    → expected (mark_submitted_in_order_nonce no_faults db sender nonce now).1 other d ≡ (
        if text_eq sender other
        then (if nonce == expected db sender nonce then nonce + 1 else expected db sender d)
        else expected db other d)
unfolding mark_submitted_in_order_nonce transaction exec advance_expected
expected-mark db sender other nonce now d h =
    ground
      (arith, text_eq_iff sender other, expected-set_expected db sender other (nonce + 1) now d)
