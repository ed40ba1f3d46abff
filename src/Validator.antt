-- ===== src/Validator.antt =====
-- core/ledger/kvledger/txmgmt/validator/statebasedval/state_based_validator.go: the checks of a
-- transaction's reads against the committed state and the block's earlier writes.
pub mod Reads
pub mod Ranges
pub mod Writes
pub mod Computed
pub mod Transactions
pub mod Moves
pub mod Statistics
pub mod Block
use eloan_peer.Prelude.{
  ℕ, Bool, true, false, not, Option, none, some, List, [], ◌∷◌, Error, Result, ok, err, failed,
  panic, ◌>>=◌, if◌then◌else◌, ◌||◌, codes,
}
use eloan_peer.Prelude.GoString.{GoString, has_prefix}
use eloan_peer.Version.{Height, are_same}
use eloan_peer.StateDb
use eloan_peer.StateDb.{UpdateBatch, VersionedValue, exists, put, delete}
use eloan_peer.VersionedDb.{VersionedDb}
use eloan_peer.CombinedIterator.{new_combined_iterator, combined_next}
use eloan_peer.Rwset.{
  KvRead, KvWrite, RangeQueryInfo, ReadsInfo, raw_reads, reads_merkle_hashes, no_reads, NsRwSet,
  TxRwSet, new_version,
}
use eloan_peer.Rwset.MerkleTree.{Hasher}
use eloan_peer.RangeQueryValidator.{results_validate, hash_validate}

abbrev pub committed_version : Option VersionedValue → Option Height
committed_version none = none
committed_version (some v) = v.version

module _ (db : VersionedDb) where
  -- An error of the database is taken for a conflict.
  unfoldable pub validate_kv_read : GoString → KvRead → UpdateBatch → Result Bool
  validate_kv_read ns kv_read updates =
      if exists ns kv_read.key updates then ok false else elim (db.get_state ns kv_read.key) [
        | err panic ↦ err panic
        | err (failed text) ↦ ok false
        | ok versioned_value ↦
            ok (are_same (committed_version versioned_value) (new_version kv_read.version))
      ]

  unfoldable pub validate_read_set : GoString → List KvRead → UpdateBatch → Result Bool
  unfolding validate_kv_read
  validate_read_set ns [] updates = ok true
  validate_read_set ns (kv_read ∷ kv_reads) updates = do
    valid ← validate_kv_read ns kv_read updates
    elim valid [ false ↦ ok false | true ↦ validate_read_set ns kv_reads updates ]

  -- The fuel bounds the recursion of the iterator's `Next` and the rounds of the hash validator.
  module _ (serialize : List KvRead → Result GoString) (hasher : Hasher) (fuel : ℕ) where
    unfoldable pub validate_range_query : GoString → RangeQueryInfo → UpdateBatch → Result Bool
    validate_range_query ns info updates = do
      itr ← new_combined_iterator db updates ns info.start_key info.end_key (not info.itr_exhausted)
      elim info.reads_info [
        | reads_merkle_hashes s ↦ hash_validate (combined_next db fuel) serialize hasher fuel s itr
        | _ ↦ results_validate (combined_next db fuel) info itr
      ]

    unfoldable pub validate_range_queries :
        GoString → List RangeQueryInfo → UpdateBatch → Result Bool
    unfolding validate_range_query
    validate_range_queries ns [] updates = ok true
    validate_range_queries ns (info ∷ infos) updates = do
      valid ← validate_range_query ns info updates
      elim valid [ false ↦ ok false | true ↦ validate_range_queries ns infos updates ]

-- The keys that the computed writes are stored under.
abbrev pub cal_prefix : GoString
cal_prefix = codes "__CAL_"

abbrev pub r_list_prefix : GoString
r_list_prefix = codes "__RLIST_"

unfoldable pub is_computed : GoString → Bool
is_computed key = has_prefix key cal_prefix || has_prefix key r_list_prefix

-- One write of the inner loop of `addWriteSetToBatch`.
unfoldable pub add_write_to_batch : GoString → KvWrite → Height → UpdateBatch → Result UpdateBatch
unfolding is_computed
add_write_to_batch ns kv_write tx_height batch =
    if kv_write.is_delete
    then ok (delete ns kv_write.key (some tx_height) batch)
    else if is_computed kv_write.key
    then ok batch
    else put ns kv_write.key kv_write.value (some tx_height) batch

unfoldable pub add_writes_to_batch :
    GoString → List KvWrite → Height → UpdateBatch → Result UpdateBatch
unfolding add_write_to_batch
add_writes_to_batch ns [] tx_height batch = ok batch
add_writes_to_batch ns (kv_write ∷ writes) tx_height batch = do
  batch' ← add_write_to_batch ns kv_write tx_height batch
  add_writes_to_batch ns writes tx_height batch'

add_ns_sets_to_batch : List NsRwSet → Height → UpdateBatch → Result UpdateBatch
unfolding add_writes_to_batch
add_ns_sets_to_batch [] tx_height batch = ok batch
add_ns_sets_to_batch (ns_rw_set ∷ sets) tx_height batch = do
  batch' ← add_writes_to_batch ns_rw_set.name_space ns_rw_set.kv_rw_set.writes tx_height batch
  add_ns_sets_to_batch sets tx_height batch'

unfoldable pub add_write_set_to_batch : TxRwSet → Height → UpdateBatch → Result UpdateBatch
unfolding add_ns_sets_to_batch
add_write_set_to_batch tx_rw_set tx_height batch =
    add_ns_sets_to_batch tx_rw_set.ns_rw_sets tx_height batch
