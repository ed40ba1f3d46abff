-- ===== src/Tests/Blocks.antt =====
-- A block of two transactions, the first of which the committer has marked.
use eloan_peer.Prelude.{◌≡◌, refl, none, some, [], ◌∷◌, ◌++◌, Result, ok, err, codes, arith}
use eloan_peer.Prelude.GoString.{GoString, str_eq}
use eloan_peer.VersionedDb.{or_nil}
use eloan_peer.Validator.{add_write_set_to_batch}
use eloan_peer.Prelude.Assoc.{erase, insert, keys, lookup}
use eloan_peer.Strconv.{digits, format_int, format_uint}
use eloan_peer.Validator.Moves.{move_cals, move_cals_to_update, move_r_lists}
use eloan_peer.Validator.Statistics.{cal_statistics}
use eloan_peer.Version.{new_height}
use eloan_peer.StateDb.{
  get, new_update_batch, get_caled_namespaces, get_or_create, get_or_create_ns_updates,
  get_r_lists_namespaces, get_update_size, ns_or_new,
}
use eloan_peer.TxValidationFlags.{flag, is_invalid, set_flag, is_set_to, is_valid}
use eloan_peer.Validator.Computed.{Calc}
use eloan_peer.Validator.Block.Runes.{replacement}
use eloan_peer.Validator.Block.{
  BlockStatistics, qscc, Block, ChannelHeader, Decoders, Checked, Progress, flags_of,
  current_statistics, begin_block, commit_tx, str_func, count_tx, finish_block, func_name,
  index_statistics, save_statistics, set_time, stored_statistics,
}
use eloan_peer.Validator.Block.Rounds.{
  validate_block, endorser_round, run_block, tx_rounds, tx_round, open_round, typed_round,
  finish_round, count_round, count_named,
}
use eloan_peer.Validator.Block.Flags.{validate_block-flag}
use eloan_peer.Validator.Block.Commits.{IsCommitted, endorser_round-IsCommitted}
use eloan_peer.Validator.Block.Keys.{save_statistics_large}
use eloan_peer.Tests.Codecs.{lists}
use eloan_peer.Tests.Lists.{empty_db}

abbrev pub header : ChannelHeader
header = record { header_type = 3; tx_id = codes "t"; timestamp = codes "now"; extension = [] }

abbrev pub decode : Decoders
decode = record {
  payload_of = λ e. ok ([], []);
  channel_header = λ b. ok header;
  endorser_transaction = 3;
  chaincode_name = λ b. some (codes "cc");
  actions = λ b. none;
  proposal_payload = λ b. none;
  proposal_input = λ b. none;
  invocation_args = λ b. ok none;
  marshal_statistics = λ b. none;
  unmarshal_statistics = λ b. record { number = 0; block_time = []; list = [] };
}

-- Checks that find an empty set.
abbrev empty_checks : GoString → Calc lists → Result (Checked lists)
empty_checks env s =
    ok (record { tx_rw_set = some (record { ns_rw_sets = [] }); tx_result = 0; calc = s })

abbrev block : Block
block = record { number = 7; tx_data = codes "x" ∷ codes "y" ∷ []; filter = 11 ∷ 0 ∷ [] }

abbrev start : Calc lists
start = record { updates = new_update_batch; store = tt; r_list_cache = none; clock = 0 }

abbrev progress_of : Result (Progress lists) → Progress lists
progress_of (ok s) = s
progress_of (err e) = record {
  calc = start;
  flags = [];
  block_statistics = record { number = 0; block_time = []; list = [] };
  trans_static = [];
}

abbrev behind : Progress lists
behind = progress_of (validate_block empty_db lists decode empty_checks none block start)

validated : validate_block empty_db lists decode empty_checks none block start ≡ ok behind
unfolding validate_block current_statistics or_nil run_block tx_rounds tx_round is_invalid
    begin_block flags_of open_round typed_round endorser_round finish_round set_flag commit_tx
    add_write_set_to_batch count_round str_func erase insert keys lookup str_eq get_caled_namespaces
    get_or_create get_or_create_ns_updates get_r_lists_namespaces get_update_size new_update_batch
    ns_or_new digits format_int format_uint flag is_set_to is_valid count_named count_tx
    finish_block func_name index_statistics save_statistics set_time stored_statistics move_cals
    move_cals_to_update move_r_lists cal_statistics new_height
validated = refl

validate_block-flag_example : flag 0 behind.flags ≡ ok 11
unfolding flag flags_of
validate_block-flag_example =
    validate_block-flag lists decode empty_checks empty_db none block start behind 0 11 refl
      (omega arith) validated

abbrev many : BlockStatistics
many = record { number = 1200000; block_time = []; list = [] }

save_statistics_large_example :
    get qscc
      (codes "BlockStatistics_" ++ replacement)
      (save_statistics (some (new_height 1 0)) (some (codes "b")) many new_update_batch)
    ≡ some (record { value = some (codes "b"); version = some (new_height 1 0) })
save_statistics_large_example =
    save_statistics_large (new_height 1 0) (codes "b") many new_update_batch (omega arith)

-- The second transaction by itself, where the block's flags are at its second place.
abbrev before : Progress lists
before = record {
  calc = start;
  flags = 11 ∷ 0 ∷ [];
  block_statistics = record { number = 7; block_time = []; list = [] };
  trans_static = [];
}

abbrev second : Result (Progress lists)
second = endorser_round lists decode empty_checks 7 none 1 (codes "y") header [] before

second_runs : second ≡ ok (progress_of second)
unfolding endorser_round finish_round set_flag commit_tx add_write_set_to_batch count_round str_func
    count_named count_tx func_name cal_statistics flag new_height set_time insert ns_or_new lookup
    format_int format_uint digits new_update_batch
second_runs = refl

endorser_round-IsCommitted_example :
    IsCommitted lists 7 1
      (record { tx_rw_set = some (record { ns_rw_sets = [] }); tx_result = 0; calc = start })
      (progress_of second)
      (some (record { ns_rw_sets = [] }))
endorser_round-IsCommitted_example =
    endorser_round-IsCommitted lists decode empty_checks 7 none 1 header [] before
      (progress_of second) (codes "y")
      (record { tx_rw_set = some (record { ns_rw_sets = [] }); tx_result = 0; calc = start }) refl
      second_runs
