-- ===== src/Validator/Block.antt =====
-- The loop over a block: `ValidateAndPrepareBatch` of state_based_validator.go.
pub mod Runes
pub mod Rounds
pub mod Flags
pub mod Commits
pub mod Keys
use eloan_peer.Prelude.{
  ℕ, zero, suc, ◌+◌, Bool, true, false, not, Option, none, some, List, [], ◌∷◌, ◌++◌, Result, ok,
  err, failed, panic, ◌>>=◌, ◌==◌, ltb, leb, length, codes, if◌then◌else◌,
}
use eloan_peer.Prelude.GoString.{GoString}
use eloan_peer.Prelude.Assoc.{Assoc, insert}
use eloan_peer.Version.{Height, new_height}
use eloan_peer.StateDb.{
  UpdateBatch, NsUpdates, VersionedValue, new_update_batch, ns_or_new, get_or_create_ns_updates,
}
use eloan_peer.VersionedDb.{VersionedDb, or_nil}
use eloan_peer.Rwset.{KvRead, TxRwSet}
use eloan_peer.Rwset.Codec.{ProtoCodec}
use eloan_peer.Rwset.MerkleTree.{Hasher}
use eloan_peer.RLists.{RLists}
use eloan_peer.Strconv.{format_int}
use eloan_peer.TxValidationFlags.{
  TxValidationFlags, new_tx_validation_flags, set_flag, flag, is_invalid, valid_code,
}
use eloan_peer.Validator.{add_write_set_to_batch}
use eloan_peer.Validator.Computed.{Calc}
use eloan_peer.Validator.Transactions.{TxValidationCode, Endorsed, validate_endorser_tx}
use eloan_peer.Validator.Moves.{move_cals_to_update}
use eloan_peer.Validator.Statistics.{
  TransactionStatistics, Statistics, trans_static_key, cal_statistics,
}
use eloan_peer.Validator.Block.Runes.{string_of_rune}

-- The parts of a block that validation reads, and the transactions filter of its metadata.
pub record Block : Type 0 where
  pub number : ℕ
  pub tx_data : List GoString
  pub filter : TxValidationFlags

pub record ChannelHeader : Type 0 where
  pub header_type : ℕ
  pub tx_id : GoString
  pub timestamp : GoString
  pub extension : GoString

-- common.BlockStatistics
pub record BlockStatistics : Type 0 where
  pub number : ℕ
  pub block_time : GoString
  pub list : List TransactionStatistics

-- The decoding of messages by libraries. `payload_of` is `GetEnvelopeFromBlock` and `GetPayload`,
-- with the bytes of the channel header and the data of the payload; `chaincode_name` is the name in
-- an extension, `none` where it has no chaincode id. The three steps to the arguments give `none`
-- for a nil message. `invocation_args` fails if the input does not unmarshal, and gives `none` in
-- place of a missing input.
pub record Decoders : Type 0 where
  pub payload_of : GoString → Result (GoString × GoString)
  pub channel_header : GoString → Result ChannelHeader
  pub endorser_transaction : ℕ
  pub chaincode_name : GoString → Option GoString
  pub actions : GoString → Option (List GoString)
  pub proposal_payload : GoString → Option GoString
  pub proposal_input : GoString → Option GoString
  pub invocation_args : GoString → Result (Option (List GoString))
  pub marshal_statistics : BlockStatistics → Option GoString
  pub unmarshal_statistics : GoString → BlockStatistics

-- What is left of a transaction after its checks: the sets to write, if it is valid, and its code.
pub record Checked (lists : RLists) : Type 0 where
  pub tx_rw_set : Option TxRwSet
  pub tx_result : ℕ
  pub calc : Calc lists

-- What the loop changes. `mapTransStatic` points into the list of the statistics by positions.
pub record Progress (lists : RLists) : Type 0 where
  pub calc : Calc lists
  pub flags : TxValidationFlags
  pub block_statistics : BlockStatistics
  pub trans_static : Assoc ℕ

abbrev pub qscc : GoString
qscc = codes "qscc"

-- `"func" + "," + args[0] + "," + args[1]`, of the arguments that are there.
unfoldable pub func_name : List GoString → GoString
func_name [] = codes "func"
func_name (a ∷ []) = codes "func" ++ (codes "," ++ a)
func_name (a ∷ b ∷ args) = codes "func" ++ (codes "," ++ (a ++ (codes "," ++ b)))

-- `mapTransStatic` from the list: the last entry of a key counts.
unfoldable pub index_statistics : ℕ → List TransactionStatistics → Assoc ℕ → Assoc ℕ
index_statistics i [] m = m
index_statistics i (t ∷ ts) m =
    index_statistics (suc i) ts
      (insert (trans_static_key t.chaincode_id t.func t.validation_code) i m)

-- `mapStaticUpdates[key] = value`, the map being that of the namespace in the batch.
unfoldable pub put_static : GoString → VersionedValue → UpdateBatch → UpdateBatch
put_static key v updates = record updates {
  updates = insert qscc (insert key v (ns_or_new qscc updates.updates)) updates.updates;
}

abbrev pub no_statistics : BlockStatistics
no_statistics = record { number = 0; block_time = []; list = [] }

-- A value of one byte or none is not read.
unfoldable pub stored_statistics : Decoders → Option VersionedValue → BlockStatistics
stored_statistics decode none = no_statistics
stored_statistics decode (some v) = elim v.value [
  | none ↦ no_statistics
  | some bytes ↦ if ltb 1 (length bytes) then decode.unmarshal_statistics bytes else no_statistics
]

unfoldable pub set_time : ℕ → GoString → BlockStatistics → BlockStatistics
set_time zero time b = record b { block_time = time }
set_time (suc i) time b = b

-- The flags of the block, all valid where the committer has set none.
unfoldable pub flags_of : Block → TxValidationFlags
flags_of block =
    if length block.filter == 0
    then new_tx_validation_flags (length block.tx_data)
    else block.filter

-- The statistics are stored under the number of the block, converted to a string.
abbrev pub statistics_key : ℕ → GoString
statistics_key number = codes "BlockStatistics_" ++ string_of_rune number

unfoldable pub save_statistics :
    Option Height → Option GoString → BlockStatistics → UpdateBatch → UpdateBatch
save_statistics none buf b updates = updates
save_statistics (some vh) none b updates = updates
save_statistics (some vh) (some buf) b updates =
    put_static (statistics_key b.number) (record { value = some buf; version = some vh })
      (put_static (codes "curBlockStatistics") (record { value = some buf; version = some vh })
        updates)

module _ (lists : RLists) where
  -- The writes of a valid transaction, and its flag, which is set once more.
  unfoldable pub commit_tx :
      ℕ
      → ℕ
      → Calc lists
      → Option TxRwSet
      → TxValidationFlags
      → Result (Calc lists × TxValidationFlags)
  commit_tx number tx_index calc none flags = ok (calc, flags)
  commit_tx number tx_index calc (some set) flags = do
    updates ← add_write_set_to_batch set (new_height number tx_index) calc.updates
    flags' ← set_flag tx_index valid_code flags
    ok (record calc { updates = updates }, flags')

  -- `calStatistics` at the maps of the loop.
  unfoldable pub count_tx :
      Option Height → GoString → GoString → GoString → GoString → Progress lists → Progress lists
  count_tx vh tx_id chaincode func vcode s =
      let before : Statistics = record {
        list = s.block_statistics.list;
        trans_static = s.trans_static;
        map_updates = ns_or_new qscc s.calc.updates.updates;
      } in
      let after = cal_statistics vh tx_id chaincode func vcode before in
      record s {
        calc = record s.calc {
          updates = record s.calc.updates {
            updates = insert qscc after.map_updates s.calc.updates.updates;
          };
        };
        block_statistics = record s.block_statistics { list = after.list };
        trans_static = after.trans_static;
      }

  -- What the loop starts from.
  unfoldable pub begin_block : Block → Calc lists → BlockStatistics → Progress lists
  begin_block block calc b = record {
    calc = record calc { updates = get_or_create_ns_updates qscc new_update_batch };
    flags = flags_of block;
    block_statistics = record b { number = block.number };
    trans_static = index_statistics 0 b.list [];
  }

module _ (db : VersionedDb) (decode : Decoders) where
  -- The statistics of the process: those in memory, or else the stored ones.
  unfoldable pub current_statistics : Option BlockStatistics → Result BlockStatistics
  current_statistics (some b) = ok b
  current_statistics none = do
    v ← or_nil (db.get_state qscc (codes "curBlockStatistics"))
    ok (stored_statistics decode v)

module _ (db : VersionedDb) (lists : RLists) (decode : Decoders) where
  -- What follows the loop.
  unfoldable pub finish_block : Option Height → Progress lists → Result (Progress lists)
  finish_block vh s = do
    moved ← move_cals_to_update db lists s.calc
    ok (record s {
      calc = record moved {
        updates =
            save_statistics vh (decode.marshal_statistics s.block_statistics) s.block_statistics
              moved.updates;
      };
    })

module _ (decode : Decoders) where
  -- The function that the statistics name, from the arguments of the first action.
  unfoldable pub str_func : GoString → Result GoString
  str_func payload_data = elim (decode.actions payload_data) [
    | none ↦ ok (func_name [])
    | some actions ↦ elim actions [
      | [] ↦ err panic
      | action ∷ rest ↦ elim (decode.proposal_payload action) [
        | none ↦ ok (func_name [])
        | some payload ↦ elim (decode.proposal_input payload) [
          | none ↦ ok (func_name [])
          | some input ↦ elim (decode.invocation_args input) [
            | err panic ↦ err panic
            | err (failed text) ↦ ok (func_name [])
            | ok args ↦ elim args [ none ↦ ok (func_name []) | some l ↦ ok (func_name l) ]
          ]
        ]
      ]
    ]
  ]
