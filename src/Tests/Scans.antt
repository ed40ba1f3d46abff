-- ===== src/Tests/Scans.antt =====
-- Range queries over the state and the block's updates.
use eloan_peer.Prelude.{ℕ, ◌<◌, ◌≡◌, ◌↔◌, refl, Bool, true, false, some, List, [], ◌∷◌, Result, ok}
use eloan_peer.Prelude.GoString.{GoString}
use eloan_peer.StateDb
use eloan_peer.StateDb.{VersionedKv}
use eloan_peer.StateDb.Iterator.{ns_next, Yields, is_empty, get_range_scan_iterator}
use eloan_peer.StateDb.Iterator.Range.{IsScan}
use eloan_peer.StateDb.RangeScan.{get_range_scan_iterator-IsScan}
use eloan_peer.CombinedIterator.{CombinedIterator, new_combined_iterator, combined_next}
use eloan_peer.CombinedIterator.View.{IsOverlay}
use eloan_peer.CombinedIterator.Construct.{new_combined_iterator-IsOverlay}
use eloan_peer.Rwset.{KvRead}
use eloan_peer.RangeQueryValidator.Results.{observed, recorded}
use eloan_peer.Validator.{validate_range_query}
use eloan_peer.Validator.Ranges.{raw_query, validate_range_query_iff}
use eloan_peer.Tests.Fixtures.{
  ns, key_a, key_c, updates, updates-IsWf, db, state, db-Represents, versions-Fit, small_1,
}

abbrev serialize : List KvRead → Result GoString
serialize rs = ok []

abbrev hasher : GoString → Result GoString
hasher b = ok b

abbrev read_a : KvRead
read_a = record { key = key_a; version = some (record { block_num = 1; tx_num = 0 }) }

not_empty : is_empty key_c ≡ false
not_empty = refl

validate_range_query_iff_example :
    (zs : List VersionedKv) × (bound : ℕ) × IsOverlay ns key_a key_c true (state ns) updates zs
    × ((fuel : ℕ)
        → bound < fuel
        → (b : Bool) × (validate_range_query db serialize hasher fuel ns
              (raw_query key_a key_c false (read_a ∷ []))
              updates
            ≡ ok b)
          × ((b ≡ true) ↔ (observed zs ≡ recorded (read_a ∷ []))))
validate_range_query_iff_example =
    validate_range_query_iff db state db-Represents serialize hasher ns updates key_a key_c false
      (read_a ∷ []) updates-IsWf versions-Fit (small_1, tt) (λ t. not_empty)

new_combined_iterator-IsOverlay_example :
    (itr : CombinedIterator db) × (zs : List VersionedKv) × (bound : ℕ) × (new_combined_iterator db
        updates ns key_a key_c true
      ≡ ok itr)
    × ((fuel : ℕ) → bound < fuel → Yields (combined_next db fuel) zs itr)
    × IsOverlay ns key_a key_c true (state ns) updates zs
new_combined_iterator-IsOverlay_example =
    new_combined_iterator-IsOverlay db state db-Represents updates ns key_a key_c true updates-IsWf
      (λ t. not_empty)

get_range_scan_iterator-IsScan_example :
    (xs : List VersionedKv) × Yields ns_next xs (get_range_scan_iterator ns key_a key_c updates)
    × IsScan ns key_a key_c (λ k. StateDb.get ns k updates) xs
get_range_scan_iterator-IsScan_example =
    get_range_scan_iterator-IsScan ns key_a key_c updates updates-IsWf
