-- ===== src/KvLedger.antt =====
-- core/ledger/kvledger/kv_ledger.go: a ledger's commit of a block to its three stores, in order, and
-- its start, which recovers the databases.
pub mod Prepared
pub mod Crash
pub mod Restart
use eloan_peer.Prelude.{
  ℕ, ◌<◌, ◌≡◌, Bool, true, false, Option, none, some, List, [], ◌∷◌, Error, panic, Result, ok, err,
}
use eloan_peer.Prelude.GoString.{GoString}
use eloan_peer.Version.Codec.{VarintCodec}
use eloan_peer.Rwset.Codec.{ProtoCodec}
use eloan_peer.StateLevelDb.{LevelDb}
use eloan_peer.Validator.Block.{Block, Decoders}
use eloan_peer.Ledger.{BlockStore, Databases, recover_dbs}
use eloan_peer.TxMgr.{
  StateStore, BlockValidator, TxMgr, new_tx_mgr, validate_and_prepare, recoverable_tx_mgr,
}
use eloan_peer.TxMgr
use eloan_peer.History
use eloan_peer.History.{recoverable_history}

module _ (blocks : BlockStore Block) (store : StateStore) (v : BlockValidator store)
    (codec : VarintCodec) (level : LevelDb) (proto : ProtoCodec) (decode : Decoders)
    (results_of : GoString → Result GoString) where
  pub record KvLedger : Type 0 where
    pub block_store : blocks.Store
    pub txtmgmt : TxMgr store v
    pub history_db : level.Store

  -- A commit as it runs: the ledgers it passes through, one for each change that it makes to a part
  -- of the ledger, in order; then its error, and the ledger in the end.
  abbrev pub Run : Type 0
  Run = List KvLedger × (Option Error × KvLedger)

  -- The ledger has changed, and the run goes on.
  unfoldable pub passes : KvLedger → Run → Run
  passes l run = (l ∷ run.0, run.1)

  unfoldable pub commit_history : Bool → Block → KvLedger → Run
  unfolding passes
  commit_history enabled block l = elim enabled [
    | false ↦ ([], (none, l))
    | true ↦ elim (History.commit codec level proto decode results_of block l.history_db) [
      | err e ↦ ([], (some panic, l))
      | ok p ↦ let l' = record l { history_db = p.1 } in passes l' ([], (none, l'))
    ]
  ]

  unfoldable pub commit_state : Bool → Block → KvLedger → Run
  unfolding passes commit_history
  commit_state enabled block l =
      let p = TxMgr.commit store v l.txtmgmt in
      let l' = record l { txtmgmt = p.1 } in
      passes l'
        (elim p.0 [ some e ↦ ([], (some panic, l')) | none ↦ commit_history enabled block l' ])

  unfoldable pub commit_block : Bool → Block → KvLedger → Run
  unfolding passes commit_state
  commit_block enabled block l = elim (blocks.add_block block l.block_store) [
    | err e ↦ ([], (some e, l))
    | ok s ↦ let l' = record l { block_store = s } in passes l' (commit_state enabled block l')
  ]

  -- Once the block is stored, a failure to commit it panics.
  unfoldable pub commit : Bool → Block → KvLedger → Run
  unfolding passes commit_block
  commit enabled block l =
      let p = validate_and_prepare store v block true l.txtmgmt in
      let l' = record l { txtmgmt = p.1 } in
      passes l'
        (elim p.0 [ err e ↦ ([], (some e, l')) | ok block' ↦ commit_block enabled block' l' ])

  -- The ledger of what is on the disk; a failure to recover panics.
  unfoldable pub new_kv_ledger :
      Bool → ℕ → blocks.Store → store.State → v.Validator → level.Store → Result (Option KvLedger)
  new_kv_ledger enabled fuel s db validator history =
      elim (recover_dbs blocks (recoverable_tx_mgr store v)
        (recoverable_history codec level proto decode results_of enabled) fuel s
        (record { txtmgmt_state = new_tx_mgr store v db validator; history_state = history })) [
          | err e ↦ err panic
          | ok o ↦ elim o [
            | none ↦ ok none
            | some d ↦ ok (
                some (record {
                  block_store = s;
                  txtmgmt = d.txtmgmt_state;
                  history_db = d.history_state;
                }))
          ]
        ]
