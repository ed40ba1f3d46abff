-- ===== src/RangeQueryValidator.antt =====
-- core/ledger/kvledger/txmgmt/validator/statebasedval/range_query_validator.go: the results of a
-- range query at validation, against those that the simulation recorded.
pub mod Results
pub mod Hashes
pub mod Rising
use eloan_peer.Prelude.{
  ℕ, zero, suc, ◌+◌, Bool, true, false, not, ◌&&◌, Option, none, some, List, [], ◌∷◌, Error, Result,
  ok, err, panic, ◌>>=◌, ltb, ◌==◌, if◌then◌else◌, is_some, length, get_elem?,
}
use eloan_peer.Prelude.GoString.{GoString, str_eq}
use eloan_peer.Version.{Height, new_height, are_same}
use eloan_peer.StateDb.{VersionedKv}
use eloan_peer.StateDb.Iterator.{Item}
use eloan_peer.Rwset.{
  KvRead, ProtoVersion, QueryReadsMerkleSummary, RangeQueryInfo, ReadsInfo, raw_reads,
  reads_merkle_hashes, no_reads, new_kv_read,
}
use eloan_peer.Rwset.MerkleTree.{Hasher}
use eloan_peer.Rwset.ResultsHelper.{
  ResultsHelper, Final, new_results_helper, add_result, helper_done, get_merkle_summary,
}

-- A nil version is dereferenced.
unfoldable pub convert_to_version_height : Option ProtoVersion → Result Height
unfolding new_height
convert_to_version_height none = err panic
convert_to_version_height (some v) = ok (new_height v.block_num v.tx_num)

-- `GetRawReads().GetKvReads()`
unfoldable pub get_raw_reads : ReadsInfo → List KvRead
get_raw_reads no_reads = []
get_raw_reads (raw_reads reads) = reads
get_raw_reads (reads_merkle_hashes s) = []

module _ {S : Type 0} (next : S → Item × S) where
  -- One recorded read against the current result; `ok true` goes on.
  unfoldable pub same_read : KvRead → VersionedKv → Result Bool
  same_read kv_read versioned_kv =
      if not (str_eq versioned_kv.key kv_read.key) then ok false else do
        h ← convert_to_version_height kv_read.version
        ok (are_same versioned_kv.version (some h))

  -- The loop of `validate`, with the result that was read ahead.
  unfoldable pub results_loop : List KvRead → Option VersionedKv → S → Result Bool
  unfolding same_read
  results_loop [] result itr = ok (not (is_some result))
  results_loop (kv_read ∷ reads) none itr = ok false
  results_loop (kv_read ∷ reads) (some versioned_kv) itr = do
    same ← same_read kv_read versioned_kv
    elim same [
      | false ↦ ok false
      | true ↦ (do result ← (next itr).0; results_loop reads result (next itr).1)
    ]

  -- `validate` of rangeQueryResultsValidator.
  unfoldable pub results_validate : RangeQueryInfo → S → Result Bool
  unfolding results_loop
  results_validate rq_info itr = do
    result ← (next itr).0
    results_loop (get_raw_reads rq_info.reads_info) result (next itr).1

-- bytes.Equal and the generated `Equal` of the summaries.
hashes_equal : List GoString → List GoString → Bool
hashes_equal [] [] = true
hashes_equal [] (b ∷ bs) = false
hashes_equal (a ∷ as') [] = false
hashes_equal (a ∷ as') (b ∷ bs) = str_eq a b && hashes_equal as' bs

unfoldable pub summary_equal : QueryReadsMerkleSummary → Option QueryReadsMerkleSummary → Bool
unfolding hashes_equal
summary_equal s none = false
summary_equal s (some t) =
    s.max_degree == t.max_degree
    && (s.max_level == t.max_level && hashes_equal s.max_level_hashes t.max_level_hashes)

-- What the comparison of the growing tree with the recorded one says in one round.
pub data Verdict : Type 0 where
  go_on : ℕ → Verdict
  mismatch : Verdict

-- The hash at an index; both lists are read at it, and an index out of range panics.
unfoldable pub same_hash_at : ℕ → List GoString → List GoString → Result Bool
same_hash_at i xs ys = elim (get_elem? xs i) [
  | none ↦ err panic
  | some x ↦ elim (get_elem? ys i) [ none ↦ err panic | some y ↦ ok (str_eq x y) ]
]

-- `matched` is lastMatchedIndex + 1, the number of nodes that have been compared.
unfoldable pub compare_summaries :
    QueryReadsMerkleSummary → QueryReadsMerkleSummary → ℕ → Result Verdict
unfolding same_hash_at
compare_summaries in_merkle merkle matched =
    if ltb merkle.max_level in_merkle.max_level
    then ok (go_on matched)
    else if matched == length merkle.max_level_hashes
    then ok (go_on matched)
    else if ltb (length in_merkle.max_level_hashes) (length merkle.max_level_hashes)
    then ok mismatch
    else do
      same ← same_hash_at matched merkle.max_level_hashes in_merkle.max_level_hashes
      ok (if same then go_on (matched + 1) else mismatch)

module _ {S : Type 0} (next : S → Item × S) (serialize : List KvRead → Result GoString)
    (hasher : Hasher) where
  unfoldable pub done_result : QueryReadsMerkleSummary → Final serialize hasher → Result Bool
  done_result in_merkle f = elim f.error [
    | some e ↦ err e
    | none ↦ ok (summary_equal in_merkle f.summary)
  ]

  unfoldable pub summaries_of :
      Option QueryReadsMerkleSummary → QueryReadsMerkleSummary → ℕ → Result Verdict
  summaries_of none in_merkle matched = err panic
  summaries_of (some merkle) in_merkle matched = compare_summaries in_merkle merkle matched

  -- The loop of `validate` of rangeQueryHashValidator; one round reads one result.
  unfoldable pub hash_loop : ℕ → QueryReadsMerkleSummary → ℕ → ResultsHelper → S → Result Bool
  unfolding done_result summaries_of
  hash_loop zero in_merkle matched helper itr = err panic
  hash_loop (suc fuel) in_merkle matched helper itr = do
    result ← (next itr).0
    elim result [
      | none ↦ done_result in_merkle (helper_done serialize hasher helper)
      | some versioned_kv ↦
          (let helper' =
              (add_result serialize hasher (new_kv_read versioned_kv.key versioned_kv.version)
                helper).1 in
            do
              verdict ← summaries_of (get_merkle_summary serialize hasher helper') in_merkle matched
              elim verdict [
                | mismatch ↦ ok false
                | go_on matched' ↦ hash_loop fuel in_merkle matched' helper' (next itr).1
              ])
    ]

  -- `init` and `validate`; the caller drops the error of `init`, and a nil helper then panics when
  -- it is first used.
  unfoldable pub hash_validate : ℕ → QueryReadsMerkleSummary → S → Result Bool
  hash_validate fuel in_merkle itr = elim (new_results_helper true in_merkle.max_degree) [
    | ok helper ↦ hash_loop fuel in_merkle 0 helper itr
    | err e ↦ (do result ← (next itr).0; err panic)
  ]
