-- ===== src/Store/Db.antt =====
-- crates/igra/src/store.rs: the four tables of the schema, and how a statement and a transaction
-- of the SQLite connection succeed or fail. The engine is a parameter: for each operation the
-- caller says which of its statements fails, and with which failure.
use igra_foundry_sdk.Prelude.{ℕ, ◌≡◌, refl, Option, none, some, [], Result, ok, err, Table}
use igra_foundry_sdk.Prelude.Text.{Text}
use igra_foundry_sdk.Prelude.Words.{ℤ}
use igra_foundry_sdk.Store.Types.{SqliteFailure, IgraStoreError, sqlite}

-- Columns of type INTEGER hold an `i64`, columns of type TEXT a text.
pub record TxRow : Type 0 where
  pub sender : Text
  pub l2_nonce : ℤ
  pub payload_nonce : Option ℤ
  pub kaspa_tx_id : Option Text
  pub state : Text
  pub chain_id : ℤ
  pub kaspa_network : Text
  pub el_rpc_fingerprint : Option Text
  pub kaspa_rpc_fingerprint : Option Text
  pub correlation_id : Text
  pub attempts : ℤ
  pub last_error_code : Option Text
  pub last_error_message : Option Text
  pub created_at_ms : ℤ
  pub updated_at_ms : ℤ

pub record NonceRow : Type 0 where
  pub next_expected_nonce : ℤ
  pub updated_at_ms : ℤ

pub record LockRow : Type 0 where
  pub owner_id : Text
  pub expires_at_ms : ℤ
  pub updated_at_ms : ℤ

pub record Db : Type 0 where
  pub schema_meta : Table Text
  pub tx_map : Table TxRow
  pub sender_nonce_state : Table NonceRow
  pub sender_locks : Table LockRow

abbrev pub empty_db : Db
empty_db = record { schema_meta = []; tx_map = []; sender_nonce_state = []; sender_locks = [] }

-- The outcome of each call that an operation makes on its connection, by the call's number:
-- opening it, BEGIN, the queries and statements in their order, COMMIT.
abbrev pub Faults : Type 0
Faults = ℕ → Option SqliteFailure

abbrev pub no_faults : Faults
no_faults k = none

-- The call with number k, with `?`.
unfoldable pub exec : Faults → ℕ → Result IgraStoreError (Unit {0})
exec faults k = elim (faults k) [ none ↦ ok tt | some e ↦ err (sqlite e) ]

-- A transaction that is dropped before its COMMIT succeeds is rolled back.
unfoldable pub transaction :
    {A : Type 0} → Db → Result IgraStoreError (A × Db) → Result IgraStoreError A × Db
transaction db (ok (a, db')) = (ok a, db')
transaction db (err e) = (err e, db)

-- Statements outside a transaction: what the earlier ones did stays when a later one fails.
abbrev pub Action : Type 0
Action = Db → Result IgraStoreError (Unit {0}) × Db

unfoldable pub after :
    Result IgraStoreError (Unit {0}) × Db → Action → Result IgraStoreError (Unit {0}) × Db
after (ok _, db) next = next db
after (err e, db) next = (err e, db)

unfoldable pub statement : Faults → ℕ → (Db → Db) → Action
statement faults k effect db = elim (exec faults k) [
  | ok _ ↦ (ok tt, effect db)
  | err e ↦ (err e, db)
]

exec-no_faults : (k : ℕ) → exec no_faults k ≡ ok tt
unfolding exec
exec-no_faults k = refl

-- After a failed transaction the tables are as they were.
transaction_err :
    {A : Type 0} (db : Db) (r : Result IgraStoreError (A × Db)) (e : IgraStoreError)
    → (transaction db r).0 ≡ err e
    → (transaction db r).1 ≡ db
unfolding transaction
transaction_err db (ok (a, db')) e h = cc
transaction_err db (err e') e h = refl
