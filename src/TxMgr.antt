-- ===== src/TxMgr.antt =====
-- core/ledger/kvledger/txmgmt/txmgr/lockbasedtxmgr/lockbased_txmgr.go: the transaction manager,
-- which prepares the batch of a block and commits it to the state database. Its lock lets no
-- simulation run during a commit, so the calls here are the commits' order.
pub mod Recovery
use eloan_peer.Prelude.{
  ℕ, ◌+◌, ◌-◌, ◌%◌, Bool, true, false, not, Option, none, some, List, Error, failed, panic, Result,
  ok, err, ◌>>=◌, ◌==◌, length,
}
use eloan_peer.Version.{Height, new_height, two_64}
use eloan_peer.StateDb.{UpdateBatch}
use eloan_peer.TxValidationFlags.{TxValidationFlags}
use eloan_peer.Validator.Block.{Block}
use eloan_peer.Ledger.{Recoverable}

-- The interface VersionedDB of statedb.go, as far as the manager calls it. An error is `some`.
pub record StateStore : Type 1 where
  pub State : Type 0
  pub get_latest_save_point : State → Result (Option Height)
  pub apply_updates : UpdateBatch → Height → State → Option Error × State

-- The interface Validator of validator.go, over the state. The flags are those that it leaves in
-- the block.
pub record BlockValidator (store : StateStore) : Type 1 where
  pub Validator : Type 0
  pub validate_and_prepare_batch :
      Block → Bool → store.State → Validator → Result (UpdateBatch × TxValidationFlags) × Validator

module _ (store : StateStore) (v : BlockValidator store) where
  pub record TxMgr : Type 0 where
    pub db : store.State
    pub validator : v.Validator
    pub batch : Option UpdateBatch
    pub current_block : Option Block

  unfoldable pub new_tx_mgr : store.State → v.Validator → TxMgr
  new_tx_mgr db validator = record {
    db = db;
    validator = validator;
    batch = none;
    current_block = none;
  }

  -- The block comes back with its flags.
  unfoldable pub validate_and_prepare : Block → Bool → TxMgr → Result Block × TxMgr
  validate_and_prepare block do_mvcc_validation m =
      let p = v.validate_and_prepare_batch block do_mvcc_validation m.db m.validator in
      elim p.0 [
        | err e ↦ (err e, record m { validator = p.1 })
        | ok r ↦
            let block' : Block = record block { filter = r.1 } in
            (ok block', record m { validator = p.1; batch = some r.0; current_block = some block' })
      ]

  -- The number of the last transaction; of a block without any it is the largest uint64.
  unfoldable pub commit_height : Block → Height
  commit_height block = new_height block.number ((length block.tx_data + (two_64 - 1)) % two_64)

  -- The batch is forgotten whether the database takes it or not.
  unfoldable pub commit : TxMgr → Option Error × TxMgr
  commit m = elim m.batch [
    | none ↦ (some panic, m)
    | some batch ↦ elim m.current_block [
      | none ↦ (some panic, record m { batch = none })
      | some block ↦
          let p = store.apply_updates batch (commit_height block) m.db in
          (p.0, record m { db = p.1; batch = none })
    ]
  ]

  unfoldable pub rollback : TxMgr → TxMgr
  rollback m = record m { batch = none }

  unfoldable pub get_last_savepoint : TxMgr → Result (Option Height)
  get_last_savepoint m = store.get_latest_save_point m.db

  unfoldable pub should_recover : ℕ → TxMgr → Result (Bool × ℕ)
  should_recover last_available_block m = do
    savepoint ← get_last_savepoint m
    elim savepoint [
      | none ↦ ok (true, 0)
      | some h ↦ ok (not (h.block_num == last_available_block), (h.block_num + 1) % two_64)
    ]

  -- The result of a step whose error is the first component.
  unfoldable pub or_block : Block → Option Error × TxMgr → Result Block × TxMgr
  or_block block (none, m) = (ok block, m)
  or_block block (some e, m) = (err e, m)

  unfoldable pub commit_prepared : Result Block × TxMgr → Result Block × TxMgr
  commit_prepared (err e, m) = (err e, m)
  commit_prepared (ok block, m) = or_block block (commit m)

  unfoldable pub commit_lost_block : Block → TxMgr → Result Block × TxMgr
  commit_lost_block block m = commit_prepared (validate_and_prepare block false m)

  -- The manager as a database that can be recovered.
  unfoldable pub block_and_state : Result Block × TxMgr → Result (Block × TxMgr)
  block_and_state (err e, m) = err e
  block_and_state (ok block, m) = ok (block, m)

  abbrev pub recoverable_tx_mgr : Recoverable Block
  recoverable_tx_mgr = record {
    State = TxMgr;
    should_recover = should_recover;
    commit_lost_block = λ block m. block_and_state (commit_lost_block block m);
  }
