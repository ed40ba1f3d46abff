-- ===== src/KvLedger/Restart.antt =====
-- The start of a ledger of kv_ledger.go after a crash.
use eloan_peer.Prelude.{ℕ, suc, ◌≤◌, ◌<◌, ◌≡◌, true, some, ◌∷◌, Result, ok, get_elem?, arith}
use eloan_peer.Prelude.GoString.{GoString}
use eloan_peer.Version.{two_64}
use eloan_peer.Version.Codec.{VarintCodec}
use eloan_peer.Rwset.Codec.{ProtoCodec}
use eloan_peer.StateLevelDb.{LevelDb}
use eloan_peer.StateLevelDb.Stores.{Stores}
use eloan_peer.Validator.Block.{Block, Decoders}
use eloan_peer.Ledger.{BlockStore}
use eloan_peer.Ledger.Synced.{recover_dbs-Synced}
use eloan_peer.TxMgr.{
  StateStore, BlockValidator, TxMgr, new_tx_mgr, validate_and_prepare, recoverable_tx_mgr,
  get_last_savepoint,
}
use eloan_peer.TxMgr.Recovery.{Saves, Prepares, HasCommitted, recoverable_tx_mgr-KeepsUp}
use eloan_peer.History.{recoverable_history}
use eloan_peer.History.Recovery.{Indexes, HasIndexed, recoverable_history-KeepsUp}
use eloan_peer.KvLedger.{commit, new_kv_ledger}
use eloan_peer.KvLedger.Crash.{
  Appends, Ledger, OnDisk, FailsOrHas, Recovers, All-get_elem?, commit-Safe,
}

module _ (blocks : BlockStore Block) (store : StateStore) (v : BlockValidator store)
    (codec : VarintCodec) (level : LevelDb) (proto : ProtoCodec) (decode : Decoders)
    (results_of : GoString → Result GoString) (chain : ℕ → Block) where
  new_kv_ledger-OnDisk :
      (h k i j fuel : ℕ) (r : Ledger blocks store v codec level proto decode results_of)
      (w : v.Validator)
      → Saves store
      → Prepares store v chain h
      → Stores level
      → Indexes codec level proto decode results_of chain h
      → k ≤ h
      → h < two_64
      → h < fuel
      → OnDisk blocks store v codec level proto decode results_of chain k i j r
      → (l : Ledger blocks store v codec level proto decode results_of) × (new_kv_ledger blocks
            store v codec level proto decode results_of true fuel r.block_store r.txtmgmt.db w
            r.history_db
          ≡ ok (some l))
        × OnDisk blocks store v codec level proto decode results_of chain k k k l
  unfolding new_kv_ledger HasCommitted get_last_savepoint new_tx_mgr
  new_kv_ledger-OnDisk h k i j fuel r w saves prepares law indexes low fits enough disk =
      let prepares' : Prepares store v chain k = record {
        numbers = prepares.numbers;
        prepares = λ n s w less. prepares.prepares n s w (omega arith);
      } in
      let indexes' : Indexes codec level proto decode results_of chain k = record {
        numbers = indexes.numbers;
        flagged = λ n less. indexes.flagged n (omega arith);
        indexes = λ n less. indexes.indexes n (omega arith);
      } in
      let (d, run, a, b) =
        recover_dbs-Synced blocks (recoverable_tx_mgr store v)
          (recoverable_history codec level proto decode results_of true) chain r.block_store
          (HasCommitted store v) (HasIndexed codec level proto decode results_of) k fuel i j
          (record {
            txtmgmt_state = new_tx_mgr store v r.txtmgmt.db w;
            history_state = r.history_db;
          })
          (recoverable_tx_mgr-KeepsUp store v chain k saves prepares' (omega arith))
          (recoverable_history-KeepsUp codec level proto decode results_of chain k law indexes'
            (omega arith))
          disk.holds.height disk.holds.retrieves (omega arith) (omega arith) disk.committed_le
          disk.indexed_le disk.committed disk.indexed in
      (
        record {
          block_store = r.block_store;
          txtmgmt = d.txtmgmt_state;
          history_db = d.history_state;
        },
        ground (arith, run),
        record {
          holds = disk.holds;
          committed = a;
          indexed = b;
          committed_le = omega arith;
          indexed_le = omega arith;
        },
      )

  -- With the history database enabled, take a ledger whose stores have `n` blocks, and any of the
  -- ledgers that the commit of a block passes through, the one before it included. Where a crash
  -- between two steps leaves that one on the disk, the ledger starts again with all three stores at
  -- one height, `n` or `suc n`. A commit that ends without an error has the block in all three.
  -- The block store must answer with what it was given, both databases must read what they have
  -- written and take every batch, and the validator must prepare the stored blocks, fewer than 2^64,
  -- that have their flags, and leave the chain's next block where it accepts the block.
  pub new_kv_ledger-commit :
      (n fuel : ℕ) (block : Block) (l r : Ledger blocks store v codec level proto decode results_of)
      (w : v.Validator) (i : ℕ)
      → Saves store
      → Prepares store v chain (suc n)
      → Stores level
      → Indexes codec level proto decode results_of chain (suc n)
      → Appends blocks chain
      → suc n < two_64
      → suc n < fuel
      → OnDisk blocks store v codec level proto decode results_of chain n n n l
      → ((b : Block) (m : TxMgr store v)
          → validate_and_prepare store v block true l.txtmgmt ≡ (ok b, m)
          → b ≡ chain n)
      → get_elem? (l ∷ (commit blocks store v codec level proto decode results_of true block l).0) i
        ≡ some r
      → ((k : ℕ) × (l' : Ledger blocks store v codec level proto decode results_of) × (n ≤ k)
          × (k ≤ suc n)
          × (new_kv_ledger blocks store v codec level proto decode results_of true fuel
                r.block_store r.txtmgmt.db w r.history_db
              ≡ ok (some l'))
          × OnDisk blocks store v codec level proto decode results_of chain k k k l')
        × FailsOrHas blocks store v codec level proto decode results_of chain
            (suc n)
            (commit blocks store v codec level proto decode results_of true block l)
  new_kv_ledger-commit n fuel block l r w i saves prepares law indexes appends fits enough disk next
        at =
      let (all, final) =
        commit-Safe blocks store v codec level proto decode results_of chain n saves law appends
          (prepares.numbers n) (omega arith) block l disk next in
      let (k, i, j, low, high, left) =
        All-get_elem?
          (Recovers blocks store v codec level proto decode results_of chain n saves law appends
            (prepares.numbers n) (omega arith))
          (l ∷ (commit blocks store v codec level proto decode results_of true block l).0) i r
          ((n, n, n, omega arith, omega arith, disk), all) at in
      let (l', run, synced) =
        new_kv_ledger-OnDisk (suc n) k i j fuel r w saves prepares law indexes high fits enough
          left in
      ((k, l', low, high, run, synced), final)
