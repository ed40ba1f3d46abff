-- ===== src/RLists.antt =====
-- The interface of the ordered lists of core/ledger/kvledger/txmgmt/statedb/rlist.go that the
-- validator uses. A list is an object that is changed in place: a reference into a store.
use eloan_peer.Prelude.{ℕ, Option, List, Result}
use eloan_peer.Prelude.GoString.{GoString}
use eloan_peer.StateDb.{RListRef}

pub record RLists : Type 1 where
  pub Store : Type 0
  pub new_r_list : GoString → GoString → Store → Result (RListRef × Store)
  pub add_id : RListRef → GoString → Store → Result Store
  pub add_index_id : RListRef → ℕ → GoString → Store → Result Store
  pub remove_id : RListRef → GoString → Store → Result Store
  pub save_state : RListRef → Store → Result Store
  -- The writes that `GetPutStub` holds, which the caller takes out.
  pub take_put_stub : RListRef → Store → List (GoString × Option GoString) × Store
