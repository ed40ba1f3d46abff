-- ===== src/Tests/Restarts.antt =====
-- A restart after a crash, and the stores of a block, at small sizes.
use eloan_peer.Prelude.{
  ℕ, zero, suc, ◌≤◌, get_elem?, ◌≡◌, refl, sym, ap, true, false, Option, none, some, [], ◌∷◌, ok,
  codes, arith,
}
use eloan_peer.Prelude.GoString.{GoString, str_eq}
use eloan_peer.Prelude.Assoc.{Assoc, keys, lookup}
use eloan_peer.Version.{Height, new_height}
use eloan_peer.Version.Codec.{to_bytes, new_height_from_bytes}
use eloan_peer.Strings.{slice_from}
use eloan_peer.StateDb.{new_update_batch, get_updated_namespaces}
use eloan_peer.Rwset.{TxRwSet}
use eloan_peer.Rwset.Codec.{from_proto_bytes, from_proto_sets}
use eloan_peer.StateLevelDb.{
  put_entry, save_point_key, apply_updates, get_latest_save_point, all_writes,
}
use eloan_peer.StateLevelDb.Stores.{get_latest_save_point-apply_updates}
use eloan_peer.TxValidationFlags.{is_invalid, is_valid, is_set_to, flag}
use eloan_peer.Validator.Block.{Block, flags_of}
use eloan_peer.Ledger.{Databases, recover_dbs}
use eloan_peer.Ledger.Synced.{recover_dbs-Synced}
use eloan_peer.TxMgr.{
  StateStore, BlockValidator, TxMgr, new_tx_mgr, validate_and_prepare, recoverable_tx_mgr,
  get_last_savepoint, commit_height,
}
use eloan_peer.TxMgr
use eloan_peer.TxMgr.Recovery.{HasCommitted, SavedAt, recoverable_tx_mgr-KeepsUp}
use eloan_peer.History
use eloan_peer.History.{
  construct_composite_history_key, batch_of, block_history, tx_history, valid_history,
  endorser_history, set_history, ns_history, recoverable_history,
}
use eloan_peer.History.Committed.{HasSet, ok-inj, get_entry-commit}
use eloan_peer.History.Recovery.{HasIndexed, recoverable_history-KeepsUp}
use eloan_peer.KvLedger.{commit, commit_block, commit_state, commit_history, passes, new_kv_ledger}
use eloan_peer.KvLedger.Crash.{Holds, Ledger, OnDisk, FailsOrHas}
use eloan_peer.KvLedger.Restart.{new_kv_ledger-commit}
use eloan_peer.Tests.Fixtures.{ns, height_2, small_2}
use eloan_peer.Tests.Codecs.{codec}
use eloan_peer.Tests.Blocks.{decode, header}
use eloan_peer.Tests.Ledgers.{
  apply_writes, level, level-Stores, write_k, proto, envelope_results, chain, blocks, store,
  validator, saves, prepares, indexes, appends,
}

-- A ledger with two blocks.
abbrev saved_at : ℕ → Option Height
saved_at zero = none
saved_at (suc n) = some (new_height n 0)

abbrev ledger_of :
    ℕ → ℕ → Assoc GoString → Ledger blocks store validator codec level proto decode envelope_results
ledger_of k i h = record {
  block_store = k;
  txtmgmt = new_tx_mgr store validator (saved_at i) tt;
  history_db = h;
}

abbrev history_2 : Assoc GoString
history_2 = (save_point_key, to_bytes codec (new_height 1 1)) ∷ []

abbrev behind :
    Databases
      (recoverable_tx_mgr store validator)
      (recoverable_history codec level proto decode envelope_results true)
behind = record { txtmgmt_state = new_tx_mgr store validator none tt; history_state = history_2 }

holds : (n : ℕ) → Holds blocks chain n n
holds n = record { height = refl; retrieves = λ k low. refl }

indexed : HasIndexed codec level proto decode envelope_results 2 history_2
unfolding HasIndexed SavedAt History.get_last_savepoint History.savepoint_of lookup str_eq to_bytes
    new_height new_height_from_bytes slice_from
indexed = (new_height 1 1, refl, refl)

committed : HasCommitted store validator 0 (new_tx_mgr store validator none tt)
unfolding HasCommitted SavedAt get_last_savepoint new_tx_mgr
committed = refl

recover_dbs-Synced_example :
    (s : Databases
      (recoverable_tx_mgr store validator)
      (recoverable_history codec level proto decode envelope_results true))
    × (recover_dbs blocks
          (recoverable_tx_mgr store validator)
          (recoverable_history codec level proto decode envelope_results true)
          9
          5
          behind
        ≡ ok (some s))
    × HasCommitted store validator 5 s.txtmgmt_state
    × HasIndexed codec level proto decode envelope_results 5 s.history_state
recover_dbs-Synced_example =
    recover_dbs-Synced blocks (recoverable_tx_mgr store validator)
      (recoverable_history codec level proto decode envelope_results true) chain 5
      (HasCommitted store validator) (HasIndexed codec level proto decode envelope_results) 5 9 0 2
      behind (recoverable_tx_mgr-KeepsUp store validator chain 5 saves (prepares 5) (omega arith))
      (recoverable_history-KeepsUp codec level proto decode envelope_results chain 5 level-Stores
        (indexes 5) (omega arith))
      refl (λ n low. refl) (omega arith) (omega arith) (omega arith) (omega arith) committed indexed

on_disk :
    OnDisk blocks store validator codec level proto decode envelope_results chain 2 2 2
      (ledger_of 2 2 history_2)
unfolding HasCommitted SavedAt get_last_savepoint new_tx_mgr new_height
on_disk = record {
  holds = holds 2;
  committed = (new_height 1 0, refl, refl);
  indexed = indexed;
  committed_le = omega arith;
  indexed_le = omega arith;
}

-- The ledger when the crash comes: the state has the third block, and the history does not.
abbrev crashed : Ledger blocks store validator codec level proto decode envelope_results
crashed = record {
  block_store = 3;
  txtmgmt = record {
    db = some (new_height 2 0);
    validator = tt;
    batch = none;
    current_block = some (chain 2);
  };
  history_db = history_2;
}

commit_2 :
    get_elem?
      (ledger_of 2 2 history_2
        ∷ (commit blocks store validator codec level proto decode envelope_results true
            (chain 2)
            (ledger_of 2 2 history_2)).0)
      3
    ≡ some crashed
unfolding commit commit_block commit_state commit_history passes validate_and_prepare new_tx_mgr
    TxMgr.commit commit_height new_height
commit_2 = refl

same_block :
    (b : Block) (m : TxMgr store validator)
    → validate_and_prepare store validator (chain 2) true (ledger_of 2 2 history_2).txtmgmt
      ≡ (ok b, m)
    → b ≡ chain 2
unfolding validate_and_prepare new_tx_mgr
same_block b m e = sym (ok-inj (ap (λ p. p.0) e))

new_kv_ledger-commit_example :
    ((k : ℕ) × (l : Ledger blocks store validator codec level proto decode envelope_results) × (2
        ≤ k)
      × (k ≤ 3)
      × (new_kv_ledger blocks store validator codec level proto decode envelope_results true 9 3
            (some (new_height 2 0))
            tt
            history_2
          ≡ ok (some l))
      × OnDisk blocks store validator codec level proto decode envelope_results chain k k k l)
    × FailsOrHas blocks store validator codec level proto decode envelope_results chain 3 (
        commit blocks store validator codec level proto decode envelope_results true
          (chain 2)
          (ledger_of 2 2 history_2))
new_kv_ledger-commit_example =
    new_kv_ledger-commit blocks store validator codec level proto decode envelope_results chain 2 9
      (chain 2) (ledger_of 2 2 history_2) crashed tt 3 saves (prepares 3) level-Stores (indexes 3)
      appends (omega arith) (omega arith) on_disk same_block commit_2

abbrev committed_3 : Assoc GoString
committed_3 =
    apply_writes
      (put_entry (construct_composite_history_key codec ns (codes "k") 2 0) []
        ∷ put_entry save_point_key (to_bytes codec (new_height 2 1))
        ∷ [])
      history_2

commit_3 :
    History.commit codec level proto decode envelope_results (chain 2) history_2
    ≡ ok (chain 2, committed_3)
unfolding History.commit batch_of block_history tx_history valid_history endorser_history
    set_history ns_history is_invalid is_valid is_set_to flag from_proto_bytes from_proto_sets
    flags_of new_height
commit_3 = refl

abbrev set_3 : TxRwSet
set_3 = record { ns_rw_sets = (record { name_space = ns; kv_rw_set = write_k }) ∷ [] }

has_set : HasSet proto decode envelope_results (codes "x") set_3
unfolding from_proto_bytes from_proto_sets
has_set = record {
  payload = ([], []);
  payload_read = refl;
  chdr = header;
  chdr_read = refl;
  is_endorser = refl;
  results = codes "x";
  results_read = refl;
  set_read = refl;
}

valid_3 : is_invalid 0 (flags_of (chain 2)) ≡ ok false
unfolding is_invalid is_valid is_set_to flag flags_of
valid_3 = refl

get_entry-commit_example :
    level.get_entry (construct_composite_history_key codec ns (codes "k") 2 0) committed_3
    ≡ ok (some [])
get_entry-commit_example =
    get_entry-commit codec level proto decode envelope_results level-Stores (chain 2) (chain 2)
      history_2 committed_3 commit_3 (omega arith) 0 (codes "x") set_3 0 0
      (record { name_space = ns; kv_rw_set = write_k })
      (record { key = codes "k"; is_delete = false; value = some (codes "v") }) refl valid_3 has_set
      refl refl

applied :
    apply_updates codec level new_update_batch height_2 history_2
    ≡ ok (apply_writes (put_entry save_point_key (to_bytes codec height_2) ∷ []) history_2)
unfolding apply_updates all_writes get_updated_namespaces new_update_batch keys
applied = refl

get_latest_save_point-apply_updates_example :
    get_latest_save_point codec level
      (apply_writes (put_entry save_point_key (to_bytes codec height_2) ∷ []) history_2)
    ≡ ok (some height_2)
get_latest_save_point-apply_updates_example =
    get_latest_save_point-apply_updates codec level level-Stores new_update_batch height_2 history_2
      (apply_writes (put_entry save_point_key (to_bytes codec height_2) ∷ []) history_2) small_2
      applied
