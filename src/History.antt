-- ===== src/History.antt =====
-- core/ledger/kvledger/history/historydb: the index of the writes to every key by height, in a
-- key-value store. Its entries have no values.
pub mod Queries
pub mod Scans
pub mod Recovery
pub mod Records
pub mod Committed
use eloan_peer.Prelude.{
  ℕ, zero, suc, ◌+◌, ◌%◌, Bool, true, false, not, Option, none, some, List, [], ◌∷◌, ◌++◌, Result,
  ok, err, ◌>>=◌, ◌==◌, length, map,
}
use eloan_peer.Prelude.GoString.{GoString}
use eloan_peer.Version.{Height, new_height, two_64}
use eloan_peer.Version.Codec.{VarintCodec, to_bytes, new_height_from_bytes}
use eloan_peer.Rwset.{KvWrite, NsRwSet, TxRwSet}
use eloan_peer.Rwset.Codec.{ProtoCodec, from_proto_bytes}
use eloan_peer.StateLevelDb.{Write, put_entry, LevelDb, save_point_key}
use eloan_peer.TxValidationFlags.{TxValidationFlags, is_invalid}
use eloan_peer.Validator.Block.{Block, Decoders, flags_of}
use eloan_peer.Ledger.{Recoverable}

abbrev pub composite_key_sep : GoString
composite_key_sep = 0 ∷ []

-- namespace~key~, with the last byte where it ends a range.
unfoldable pub construct_partial_composite_history_key : GoString → GoString → Bool → GoString
construct_partial_composite_history_key ns key endkey =
    ns
    ++ (composite_key_sep
        ++ (key ++ (composite_key_sep ++ elim endkey [ true ↦ 255 ∷ [] | false ↦ [] ])))

module _ (codec : VarintCodec) where
  -- namespace~key~blocknum~trannum
  unfoldable pub construct_composite_history_key : GoString → GoString → ℕ → ℕ → GoString
  construct_composite_history_key ns key blocknum trannum =
      ns
      ++ (composite_key_sep
          ++ (key ++ (composite_key_sep ++ (codec.encode blocknum ++ codec.encode trannum))))

  -- The records of a transaction, one for each write.
  unfoldable pub ns_history : ℕ → ℕ → GoString → List KvWrite → List Write
  ns_history block_no tran_no ns [] = []
  ns_history block_no tran_no ns (w ∷ ws) =
      put_entry (construct_composite_history_key ns w.key block_no tran_no) []
      ∷ ns_history block_no tran_no ns ws

  unfoldable pub set_history : ℕ → ℕ → List NsRwSet → List Write
  set_history block_no tran_no [] = []
  set_history block_no tran_no (ns ∷ sets) =
      ns_history block_no tran_no ns.name_space ns.kv_rw_set.writes
      ++ set_history block_no tran_no sets

-- `results_of` is `GetActionFromEnvelope`, with the results of the action.
module _ (codec : VarintCodec) (level : LevelDb) (proto : ProtoCodec) (decode : Decoders)
    (results_of : GoString → Result GoString) where
  unfoldable pub endorser_history : ℕ → ℕ → GoString → Result (List Write)
  endorser_history block_no tran_no env_bytes = do
    results ← results_of env_bytes
    set ← from_proto_bytes proto results
    ok (set_history codec block_no tran_no set.ns_rw_sets)

  unfoldable pub valid_history : ℕ → ℕ → GoString → Result (List Write)
  valid_history block_no tran_no env_bytes = do
    p ← decode.payload_of env_bytes
    chdr ← decode.channel_header p.0
    elim (chdr.header_type == decode.endorser_transaction) [
      | false ↦ ok []
      | true ↦ endorser_history block_no tran_no env_bytes
    ]

  -- A transaction that is marked as invalid leaves no record.
  unfoldable pub tx_history : ℕ → ℕ → TxValidationFlags → GoString → Result (List Write)
  tx_history block_no tran_no flags env_bytes = do
    invalid ← is_invalid tran_no flags
    elim invalid [ true ↦ ok [] | false ↦ valid_history block_no tran_no env_bytes ]

  -- The counter of transactions ends at the length of the block.
  unfoldable pub block_history : ℕ → ℕ → TxValidationFlags → List GoString → Result (List Write × ℕ)
  block_history block_no tran_no flags [] = ok ([], tran_no)
  block_history block_no tran_no flags (env_bytes ∷ l) = do
    ws ← tx_history block_no tran_no flags env_bytes
    rest ← block_history block_no ((tran_no + 1) % two_64) flags l
    ok (ws ++ rest.0, rest.1)

  -- The records of a block, with its save point.
  unfoldable pub batch_of : Block → Result (List Write)
  batch_of block = do
    p ← block_history block.number 0 (flags_of block) block.tx_data
    ok (p.0 ++ put_entry save_point_key (to_bytes codec (new_height block.number p.1)) ∷ [])

  -- The flags of the block are set where they were not there.
  unfoldable pub commit : Block → level.Store → Result (Block × level.Store)
  commit block s = do
    ws ← batch_of block
    s' ← level.write_batch ws s
    ok (record block { filter = flags_of block }, s')

  -- The error of decoding a height is not looked at: the codec panics where it fails.
  unfoldable pub savepoint_of : Option GoString → Result (Option Height)
  savepoint_of none = ok none
  savepoint_of (some version_bytes) = do
    p ← new_height_from_bytes codec version_bytes
    ok (some p.0)

  unfoldable pub get_last_savepoint : level.Store → Result (Option Height)
  get_last_savepoint s = do
    version_bytes ← level.get_entry save_point_key s
    savepoint_of version_bytes

  unfoldable pub recover_flag : ℕ → Option Height → Bool × ℕ
  recover_flag last_available_block none = (true, 0)
  recover_flag last_available_block (some h) =
      (not (h.block_num == last_available_block), (h.block_num + 1) % two_64)

  -- The flag says whether the history database is enabled.
  unfoldable pub should_recover : Bool → ℕ → level.Store → Result (Bool × ℕ)
  should_recover enabled last_available_block s = elim enabled [
    | false ↦ ok (false, 0)
    | true ↦ (do savepoint ← get_last_savepoint s; ok (recover_flag last_available_block savepoint))
  ]

  abbrev pub recoverable_history : Bool → Recoverable Block
  recoverable_history enabled = record {
    State = level.Store;
    should_recover = should_recover enabled;
    commit_lost_block = commit;
  }
