-- ===== src/Store/Operation/Refine.antt =====
-- crates/igra/src/store.rs: the operations on the tables keep what the store promises.
use igra_foundry_sdk.Prelude.{false, Unique}
use igra_foundry_sdk.Store.Db.{Db, no_faults}
use igra_foundry_sdk.Store.Nonce.{has_other_hash}
use igra_foundry_sdk.Store.Lifecycle.{IgraStore}
use igra_foundry_sdk.Store.Operation.{Fits}
use igra_foundry_sdk.Store.Operation.{
  Operation, try_lock, try_classify, release, classify, mark, persist, load, set_version, reconcile,
  run,
}
use igra_foundry_sdk.Store.Operation.View.{view, Keeps}
use igra_foundry_sdk.Store.Operation.Leases.{try_lock-kept, release-kept}
use igra_foundry_sdk.Store.Operation.Rows.{
  set_version-kept, persist-kept, load-kept, reconcile-kept,
}
use igra_foundry_sdk.Store.Operation.Others.{told_lem}
use igra_foundry_sdk.Store.Operation.Orders.{classify-kept, try_classify-kept, mark-kept}

pub run-Keeps :
    (store : IgraStore) (op : Operation) (db : Db)
    → Unique db.tx_map
    → Unique db.sender_locks
    → Fits op
    → let r = run store no_faults op db in Keeps store op (view db) r.0 (view r.1)
run-Keeps store (try_lock sender owner_id now lease_ms) db u v h = record {
  other = false;
  told = tt;
  kept = try_lock-kept store db sender owner_id now lease_ms;
}
run-Keeps store (try_classify sender owner_id nonce hash now lease_ms) db u v h = record {
  other = has_other_hash sender nonce hash db.tx_map;
  told = told_lem db sender nonce hash u;
  kept = try_classify-kept store db sender owner_id nonce hash now lease_ms h;
}
run-Keeps store (release sender owner_id) db u v h = record {
  other = false;
  told = tt;
  kept = release-kept store db sender owner_id v;
}
run-Keeps store (classify sender nonce now) db u v h = record {
  other = false;
  told = tt;
  kept = classify-kept store db sender nonce now h;
}
run-Keeps store (mark sender nonce now) db u v h = record {
  other = false;
  told = tt;
  kept = mark-kept store db sender nonce now;
}
run-Keeps store (persist update now) db u v h = record {
  other = false;
  told = tt;
  kept = persist-kept store db update now;
}
run-Keeps store (load hash) db u v h = record {
  other = false;
  told = tt;
  kept = load-kept store db hash;
}
run-Keeps store set_version db u v h = record {
  other = false;
  told = tt;
  kept = set_version-kept store db;
}
run-Keeps store reconcile db u v h = record {
  other = false;
  told = tt;
  kept = reconcile-kept store db;
}
