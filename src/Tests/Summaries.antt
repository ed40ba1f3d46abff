-- ===== src/Tests/Summaries.antt =====
-- Results that are read from a list, and their hashes.
use eloan_peer.Prelude.{
  ℕ, ◌<◌, ◌≤◌, ◌≡◌, ◌↔◌, refl, Bool, true, false, none, some, List, [], ◌∷◌, Result, ok, err, panic,
  codes, arith, length,
}
use eloan_peer.Prelude.GoString.{GoString, str_eq}
use eloan_peer.StateDb.{VersionedKv}
use eloan_peer.StateDb.Iterator.{Item, Yields}
use eloan_peer.Rwset.{KvRead, RangeQueryInfo, QueryReadsMerkleSummary, raw_reads}
use eloan_peer.Rwset.MerkleTree.{Hasher, MerkleTree, new_merkle_tree, update, done, get_summery}
use eloan_peer.Rwset.MerkleTree.Bounds.{
  IsBounded, Total, update-IsBounded, new_merkle_tree-IsBounded,
}
use eloan_peer.Rwset.MerkleTree.Done.{IsComplete, done-IsComplete}
use eloan_peer.Rwset.ResultsHelper.{
  ResultsHelper, new_results_helper, add_result, add_results, helper_done, get_merkle_summary,
}
use eloan_peer.Rwset.ResultsHelper.Outcome.{IsSummary, helper_done_lem}
use eloan_peer.RangeQueryValidator.{
  results_validate, get_raw_reads, hash_validate, hash_loop, compare_summaries, summary_equal,
}
use eloan_peer.RangeQueryValidator.Results.{observed, recorded, results_validate_iff}
use eloan_peer.RangeQueryValidator.Hashes.{
  SameSummary, hash_validate_low_degree, hash_validate_sound,
}
use eloan_peer.RangeQueryValidator.Rising.{recorded_of, hash_validate_rises}
use eloan_peer.Tests.Fixtures.{ns, key_a, key_b, height_1, small_1}

abbrev list_next : List VersionedKv → Item × List VersionedKv
list_next [] = (ok none, [])
list_next (x ∷ xs) = (ok (some x), xs)

abbrev item_a : VersionedKv
item_a = record { namespace = ns; key = key_a; value = some (codes "x"); version = some height_1 }

abbrev read_a : KvRead
read_a = record { key = key_a; version = some (record { block_num = 1; tx_num = 0 }) }

abbrev info : RangeQueryInfo
info = record {
  start_key = key_a;
  end_key = key_b;
  itr_exhausted = true;
  reads_info = raw_reads (read_a ∷ []);
}

results_validate_iff_example :
    (b : Bool) × (results_validate list_next info (item_a ∷ []) ≡ ok b)
    × ((b ≡ true) ↔ (observed (item_a ∷ []) ≡ recorded (get_raw_reads info.reads_info)))
unfolding get_raw_reads
results_validate_iff_example =
    results_validate_iff list_next info (item_a ∷ []) (item_a ∷ []) (refl, refl) (small_1, tt)
      (small_1, tt)

abbrev serialize : List KvRead → Result GoString
serialize rs = ok []

abbrev hasher : Hasher
hasher b = ok b

hasher-Total : Total hasher
hasher-Total b = (b, refl)

abbrev tree : MerkleTree
tree = record { tree = λ l. []; max_level = 1; max_degree = 2 }

abbrev helper : ResultsHelper
helper = record { pending_results = []; mt = some tree; max_degree = 2; hashing_enabled = true }

new_helper : new_results_helper true 2 ≡ ok helper
unfolding new_results_helper new_merkle_tree
new_helper = refl

new_tree : new_merkle_tree 2 ≡ ok tree
unfolding new_merkle_tree
new_tree = refl

tree-IsBounded : IsBounded tree
tree-IsBounded = new_merkle_tree-IsBounded 2 tree (omega arith) new_tree

update-IsBounded_example :
    ((update hasher (codes "h") tree).0 ≡ none) × IsBounded (update hasher (codes "h") tree).1
update-IsBounded_example = update-IsBounded hasher (codes "h") tree hasher-Total tree-IsBounded

done-IsComplete_example :
    ((done hasher tree).0 ≡ none)
    × IsComplete (done hasher tree).1
    × ((done hasher tree).1.max_degree ≡ 2)
done-IsComplete_example = done-IsComplete hasher tree hasher-Total tree-IsBounded

abbrev three_reads : List KvRead
three_reads = read_a ∷ read_a ∷ read_a ∷ []

helper_done_lem_example :
    (length three_reads ≤ 2
      → helper_done serialize hasher (add_results serialize hasher three_reads helper)
        ≡ record { results = three_reads; summary = none; error = none })
    × (2 < length three_reads
        → IsSummary serialize hasher
            (λ rs. ([], refl))
            hasher-Total
            2
            (helper_done serialize hasher (add_results serialize hasher three_reads helper)))
helper_done_lem_example =
    helper_done_lem serialize hasher (λ rs. ([], refl)) hasher-Total 2 helper three_reads
      (omega arith) new_helper

abbrev summary_of : ℕ → ℕ → List GoString → QueryReadsMerkleSummary
summary_of degree level hashes = record {
  max_degree = degree;
  max_level = level;
  max_level_hashes = hashes;
}

hash_validate_sound_example :
    ((fuel fuel' : ℕ)
      → 1 < fuel
      → 1 < fuel'
      → hash_validate list_next serialize hasher fuel (summary_of 2 1 (key_a ∷ [])) (item_a ∷ [])
        ≡ hash_validate list_next serialize hasher fuel'
            (summary_of 2 1 (key_a ∷ []))
            (item_a ∷ []))
    × ((fuel : ℕ)
        → hash_validate list_next serialize hasher fuel (summary_of 2 1 (key_a ∷ [])) (item_a ∷ [])
          ≡ ok true
        → SameSummary list_next serialize hasher (summary_of 2 1 (key_a ∷ [])) (item_a ∷ []) helper)
hash_validate_sound_example =
    hash_validate_sound list_next serialize hasher (item_a ∷ []) (summary_of 2 1 (key_a ∷ []))
      (item_a ∷ []) helper (refl, refl) new_helper

hash_validate_low_degree_example :
    hash_validate list_next serialize hasher 5 (summary_of 1 1 []) (item_a ∷ []) ≡ err panic
hash_validate_low_degree_example =
    hash_validate_low_degree list_next serialize hasher 5 (summary_of 1 1 []) (item_a ∷ [])
      (some item_a) (omega arith) refl

abbrev eight : List VersionedKv
eight = item_a ∷ item_a ∷ item_a ∷ item_a ∷ item_a ∷ item_a ∷ item_a ∷ item_a ∷ []

abbrev nine : List VersionedKv
nine = item_a ∷ eight

abbrev bytes_of : List KvRead → GoString
bytes_of rs = []

abbrev hash : GoString → GoString
hash b = b

six_recorded :
    recorded_of list_next bytes_of hash
      (item_a ∷ item_a ∷ item_a ∷ item_a ∷ item_a ∷ item_a ∷ [])
      helper
    ≡ some (summary_of 2 1 ([] ∷ [] ∷ []))
unfolding helper_done add_results add_result update done get_summery
six_recorded = refl

nine_given : Yields list_next nine nine
nine_given = (refl, (refl, (refl, (refl, (refl, (refl, (refl, (refl, (refl, refl)))))))))

hash_validate_rises_example :
    hash_validate list_next serialize hasher 12 (summary_of 2 1 ([] ∷ [] ∷ [])) nine ≡ err panic
hash_validate_rises_example =
    hash_validate_rises list_next bytes_of hash item_a item_a item_a item_a item_a item_a item_a
      item_a item_a [] nine helper (summary_of 2 1 ([] ∷ [] ∷ [])) 12 new_helper six_recorded
      nine_given (omega arith)

-- Two results behind the recorded six are a mismatch.
two_more :
    hash_validate list_next serialize hasher 12 (summary_of 2 1 ([] ∷ [] ∷ [])) eight ≡ ok false
unfolding hash_validate hash_loop new_results_helper new_merkle_tree get_merkle_summary add_result
    compare_summaries get_summery update str_eq helper_done summary_equal done
two_more = refl
