-- ===== src/Validator/Block/Rounds.antt =====
-- The rounds of the loop of `ValidateAndPrepareBatch`, and the method.
use eloan_peer.Prelude.{
  ℕ, suc, Bool, true, false, Option, none, some, List, [], ◌∷◌, Result, ok, err, panic, ◌>>=◌, ◌==◌,
}
use eloan_peer.Prelude.GoString.{GoString}
use eloan_peer.Version.{Height}
use eloan_peer.VersionedDb.{VersionedDb, or_nil}
use eloan_peer.Rwset.{KvRead}
use eloan_peer.Rwset.Codec.{ProtoCodec}
use eloan_peer.Rwset.MerkleTree.{Hasher}
use eloan_peer.RLists.{RLists}
use eloan_peer.Strconv.{format_int}
use eloan_peer.TxValidationFlags.{TxValidationFlags, set_flag, flag, is_invalid}
use eloan_peer.Validator.Computed.{Calc}
use eloan_peer.Validator.Transactions.{TxValidationCode, validate_endorser_tx}
use eloan_peer.Validator.Block.{
  Block, ChannelHeader, BlockStatistics, Decoders, Checked, Progress, set_time, commit_tx, count_tx,
  begin_block, current_statistics, finish_block, str_func,
}

module _ (lists : RLists) (decode : Decoders) where
  -- The statistics of a transaction whose flag is set.
  unfoldable pub count_named :
      Option Height
      → ℕ
      → ChannelHeader
      → Calc lists
      → TxValidationFlags
      → Progress lists
      → GoString
      → ℕ
      → Result (Progress lists)
  count_named vh tx_index chdr calc flags s func code =
      elim (decode.chaincode_name chdr.extension) [
        | none ↦ err panic
        | some chaincode ↦ ok (
            count_tx lists vh chdr.tx_id chaincode func (format_int code) (record s {
              calc = calc;
              flags = flags;
              block_statistics = set_time tx_index chdr.timestamp s.block_statistics;
            }))
      ]

  unfoldable pub count_round :
      Option Height
      → ℕ
      → ChannelHeader
      → GoString
      → Calc lists × TxValidationFlags
      → Progress lists
      → Result (Progress lists)
  count_round vh tx_index chdr payload_data (calc, flags) s = do
    func ← str_func decode payload_data
    code ← flag tx_index flags
    count_named vh tx_index chdr calc flags s func code

  -- What follows the checks of a transaction.
  unfoldable pub finish_round :
      ℕ
      → Option Height
      → ℕ
      → ChannelHeader
      → GoString
      → Progress lists
      → Checked lists
      → Result (Progress lists)
  finish_round number vh tx_index chdr payload_data s r = do
    flags ← set_flag tx_index r.tx_result s.flags
    p ← commit_tx lists number tx_index r.calc r.tx_rw_set flags
    count_round vh tx_index chdr payload_data p s

module _ (lists : RLists) (decode : Decoders)
    (endorse : GoString → Calc lists → Result (Checked lists)) where
  -- The transaction at an index, whose type is that of an endorser transaction.
  unfoldable pub endorser_round :
      ℕ
      → Option Height
      → ℕ
      → GoString
      → ChannelHeader
      → GoString
      → Progress lists
      → Result (Progress lists)
  endorser_round number vh tx_index env_bytes chdr payload_data s = do
    r ← endorse env_bytes s.calc
    finish_round lists decode number vh tx_index chdr payload_data s r

  -- A transaction of another type is left as it is.
  unfoldable pub typed_round :
      ℕ
      → Option Height
      → ℕ
      → GoString
      → GoString
      → Progress lists
      → ChannelHeader
      → Result (Progress lists)
  typed_round number vh tx_index env_bytes payload_data s chdr =
      elim (chdr.header_type == decode.endorser_transaction) [
        | false ↦ ok s
        | true ↦ endorser_round number vh tx_index env_bytes chdr payload_data s
      ]

  unfoldable pub open_round :
      ℕ → Option Height → ℕ → GoString → Progress lists → Result (Progress lists)
  open_round number vh tx_index env_bytes s = do
    p ← decode.payload_of env_bytes
    chdr ← decode.channel_header p.0
    typed_round number vh tx_index env_bytes p.1 s chdr

  -- One round of the loop: what the committer marked as invalid is passed over.
  unfoldable pub tx_round :
      ℕ → Option Height → ℕ → GoString → Progress lists → Result (Progress lists)
  tx_round number vh tx_index env_bytes s = do
    invalid ← is_invalid tx_index s.flags
    elim invalid [ true ↦ ok s | false ↦ open_round number vh tx_index env_bytes s ]

  unfoldable pub tx_rounds :
      ℕ → Option Height → ℕ → List GoString → Progress lists → Result (Progress lists)
  tx_rounds number vh tx_index [] s = ok s
  tx_rounds number vh tx_index (env_bytes ∷ l) s = do
    s' ← tx_round number vh tx_index env_bytes s
    tx_rounds number vh (suc tx_index) l s'

module _ (db : VersionedDb) (lists : RLists) (decode : Decoders)
    (endorse : GoString → Calc lists → Result (Checked lists)) where
  unfoldable pub run_block :
      Block → Calc lists → BlockStatistics → Option Height → Result (Progress lists)
  run_block block calc b vh = do
    s ←
        tx_rounds lists decode endorse block.number vh 0 block.tx_data
          (begin_block lists block calc b)
    finish_block db lists decode vh s

  -- The batch and the flags of a block, and the state of the process behind it. `memory` holds the
  -- statistics from the block before.
  unfoldable pub validate_block :
      Option BlockStatistics → Block → Calc lists → Result (Progress lists)
  validate_block memory block calc = do
    b ← current_statistics db decode memory
    vh ← or_nil db.get_latest_save_point
    run_block block calc b vh

-- The whole method; `code_of` is the number of a code in the protobuf enumeration.
module _ (db : VersionedDb) (serialize : List KvRead → Result GoString) (hasher : Hasher) (fuel : ℕ)
    (lists : RLists) (now : ℕ → ℕ) (proto : ProtoCodec) (get_results : GoString → Result GoString)
    (decode : Decoders) (code_of : TxValidationCode → ℕ) where
  unfoldable pub endorsed : Bool → GoString → Calc lists → Result (Checked lists)
  endorsed do_mvcc_validation env_bytes s = do
    r ←
        validate_endorser_tx db serialize hasher fuel lists now proto get_results do_mvcc_validation
          env_bytes s
    ok (record { tx_rw_set = r.tx_rw_set; tx_result = code_of r.tx_result; calc = r.calc })

  unfoldable pub validate_and_prepare_batch :
      Bool → Option BlockStatistics → Block → Calc lists → Result (Progress lists)
  validate_and_prepare_batch do_mvcc_validation memory block calc =
      validate_block db lists decode (endorsed do_mvcc_validation) memory block calc
