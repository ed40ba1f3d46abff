-- ===== src/Lib.antt =====
-- A peer of a permissioned blockchain executes transactions against its state, records what they
-- read and wrote, and validates them when their block arrives. This library models the simulation
-- of a transaction, the validation, in which a peer decides which transactions of a block are valid
-- and what they write, the commit of a block to the stores of a ledger, and the recovery after a
-- crash.
--
-- The parts, each with the file that models it (paths from the root of the repository):
--   Version, core/ledger/kvledger/txmgmt/version: heights, the pairs of a block and a transaction
--     number. Compare is compare_height, AreSame is are_same.
--   StateDb, core/ledger/kvledger/txmgmt/statedb/statedb.go: versioned values and the update batch
--     that collects the writes of a block (put, delete, get, exists). StateDb/Iterator models the
--     range scan of a batch, StateDb/Sort the sorted keys and the binary search that it stands on.
--   VersionedDb, the interface VersionedDB of statedb.go: what validation reads of the committed
--     state. Represents says that a database answers from a state, without errors.
--   StateLevelDb, core/ledger/kvledger/txmgmt/statedb/stateleveldb: the state in a key-value store.
--   CombinedIterator, validator/statebasedval/combined_iterator.go: the committed state and the
--     batch as one sorted sequence. One call of Next without its recursion is `round`.
--   Rwset, core/ledger/kvledger/txmgmt/rwsetutil: the read-write sets, their builder
--     (Rwset/Builder), and the helper that hashes the results of a range query into a Merkle tree
--     (Rwset/ResultsHelper, Rwset/MerkleTree). Rwset/Codec serialises the sets over protobuf.
--   RangeQueryValidator, validator/statebasedval/range_query_validator.go: the comparison of a range
--     query's results with the recorded ones, raw (results_validate) or hashed (hash_validate).
--     RangeQueryValidator/Rising has the tree that rises above the recorded level.
--   Validator, validator/statebasedval/state_based_validator.go: the checks of reads and ranges
--     (validate_read_set, validate_range_query) and the writing of a valid transaction
--     (add_write_set_to_batch). Validator/Computed models calWriteSet, the writes that are computed
--     at validation: sums and products (cal_write), lists (r_list_write) and counts (count_loop).
--     Validator/Transactions models validateTx and validateEndorserTX, Validator/Moves
--     moveCalsToUpdate (Validator/Moves/Sums its computed values, Validator/Moves/Whole all of it),
--     Validator/Statistics calStatistics, and Validator/Block the loop over a
--     block, ValidateAndPrepareBatch.
--   Cache, validator/statebasedval/cache/cache.go: the expiring map that keeps lists between blocks.
--     Cache/Traces interleaves its calls, without Count, Save and Load, with the rounds of its
--     garbage collector.
--   RLists: the interface of the lists of statedb/rlist.go, a section parameter of the validator.
--   Rlist, statedb/rlist.go: the lists, trees of buckets that point to one another in a store of
--     nodes. Rlist/Load has the constructors and load, Rlist/Sizes the methods that walk up the
--     parents and addBucket, Rlist/Lookup GetIdByIndex, getIndex and IndexOf, Rlist/Insertion and
--     Rlist/Removal the bodies of AddIndexId and removeIdx, and Rlist/Save SaveState and the record
--     r_lists that fills the interface. Rlist/Small proves what lists with one bucket do, by the
--     states of their two nodes (Frame and Content), and Rlist/Tree reads trees of any height.
--   Ledger, kvledger/recovery.go and recoverDBs of kvledger/kv_ledger.go: the recovery of the state
--     and the history, over the interface Recoverable. KvLedger has the rest of kv_ledger.go, and
--     commit also returns the ledgers that it passes through, so that KvLedger/Crash can say what
--     each of them has on the disk, and KvLedger/Restart what the next start makes of it.
--   TxMgr, txmgmt/txmgr/lockbasedtxmgr/lockbased_txmgr.go: the transaction manager, as a state with
--     the prepared batch.
--   Simulator, helper.go and lockbased_tx_simulator.go of the same directory: what a simulation reads
--     and writes. Simulator/Iterators has the range queries and the end of a simulation, and
--     Simulator/Sessions runs its methods one after another.
--   History, kvledger/history/historydb: the records of the writes to every key, and in
--     History/Queries the scanner of the records of one key. History/Committed reads a committed
--     block back, and History/Scans a record.
--   Strings and Strconv: what the code calls of Go's packages of these names.
--   TxValidationFlags, core/ledger/util/txvalidationflags.go: the codes of a block's transactions.
-- Validation reads the database, lays the batch over it through the combined iterator, compares
-- with the read-write set, and then writes the set to the batch. The transaction manager applies the
-- batch to the state, and the ledger writes the block before it and the history behind it.
--
-- How the code is written down. A Go string or byte slice is a list of bytes, a nil slice or
-- pointer is `none`, a map is an association list, and a pointer to a struct that is changed in
-- place is a value that is returned. An error is `err (failed text)` and a run-time panic `err
-- panic`. A uint64 is a natural number with its wrap-around written out. Log lines are left out.
-- The protobuf messages are records with the fields that are read; summary_equal is the generated
-- Equal of the Merkle summaries as its documentation has it, field by field; their marshalling and
-- the hash function are parameters, which the theorems take as not failing where they say so.
--
-- Fuel. `combined_next` takes fuel for the recursion of Next behind deleted items: any number above
-- the items of both iterators gives the same items. `hash_loop` takes fuel for its rounds, of which
-- there is one per result and one more. `update_from` takes two more than the highest level, which
-- is enough, since a level is left at most once. `done_from` counts the levels below the highest.
-- `count_loop` is given one more than the length of the text, of which every round cuts off two
-- marks; it returns none where the fuel ends. The methods of the lists take fuel for the chain of
-- parents and for the calls of AddIndexId and removeIdx of one another; without it they panic, as
-- Go does where a stack overflows. Five calls are enough for a list with one bucket.
-- `recommit_lost_blocks` takes fuel for the blocks that it commits: more than the height of the
-- block store is enough.
--
-- In Rlist a slice is a value: that append may write into an array that two slices share is not
-- modelled. The order in which SaveState goes through its map is that of the association list.
-- In Validator/Block the map of the statistics' updates is that of the namespace qscc in the batch,
-- as in the code, where both are one map. A block that fails to validate leaves no state.
--
-- In TxMgr and KvLedger the read-write lock is left out: a commit is one sequence of calls. An
-- error that leaves a state behind is the first component of a pair, with the state as the second.
-- A database that fails during the recovery leaves no state, since the ledger panics then. The
-- batch of leveldbhelper is the list of its calls. A crash is taken to come between two calls of
-- the stores, each of which writes all or nothing.
--
-- Not modelled here: the printing of lists, the CouchDB database, the list of the ledgers, the
-- chaincode runtime, the network, and the command line.
mod Prelude
pub mod Version
pub mod StateDb
pub mod VersionedDb
pub mod StateLevelDb
pub mod CombinedIterator
pub mod Rwset
pub mod RangeQueryValidator
pub mod TxValidationFlags
pub mod Strings
pub mod Strconv
pub mod RLists
pub mod Rlist
pub mod Cache
pub mod Validator
pub mod Ledger
pub mod TxMgr
pub mod Simulator
pub mod History
pub mod KvLedger
pub mod Tests
