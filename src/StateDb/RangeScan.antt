-- ===== src/StateDb/RangeScan.antt =====
-- `GetRangeScanIterator` of statedb.go against the lookups of the batch.
use mathlib.Core.Path.{subst, fun_ext}
use eloan_peer.StateDb.Batch.{ns_or_new-some}
use eloan_peer.Prelude.{
  ◌≤◌, ap, ◌∙◌, ◌≡◌, refl, ◌&&◌, none, some, List, [], arith, if◌then◌else◌, is_some, Option-cases,
  inl, inr, length,
}
use eloan_peer.Prelude.GoString.{GoString}
use eloan_peer.Prelude.Assoc.{Distinct, lookup, keys, member}
use eloan_peer.StateDb.{UpdateBatch, VersionedKv, NsUpdates, get, lookup2}
use eloan_peer.StateDb.Sort.{get_sorted_keys, get_sorted_keys_lem}
use eloan_peer.StateDb.Wf.{IsWf}
use eloan_peer.StateDb.Iterator.{
  NsIterator, ns_next, new_ns_iterator, get_range_scan_iterator, Yields, in_range, start_index,
  end_index,
}
use eloan_peer.StateDb.Iterator.Scan.{kvs, slice, Covers, ns_next-Yields}
use eloan_peer.StateDb.Iterator.Range.{
  IsScan, find_kv, to_item, member-slice, Covers-of_member, Covers-take, Covers-drop, key_list-kvs,
  find_kv-kvs, Increasing-slice, end_index-le,
}

-- The keys of a map that lie in the range.
range_keys : GoString → GoString → NsUpdates → List GoString
unfolding slice
range_keys start_key end_key m =
    slice (start_index start_key (get_sorted_keys m)) (end_index end_key (get_sorted_keys m))
      (get_sorted_keys m)

Covers-get_sorted_keys : (m : NsUpdates) → Distinct (keys m) → Covers m (get_sorted_keys m)
Covers-get_sorted_keys m h =
    Covers-of_member m (get_sorted_keys m) (λ k e. ground (arith, (get_sorted_keys_lem m h).1 k))

Covers-range_keys :
    (start_key end_key : GoString) (m : NsUpdates)
    → Distinct (keys m)
    → Covers m (range_keys start_key end_key m)
unfolding range_keys
Covers-range_keys start_key end_key m h =
    Covers-drop m (start_index start_key (get_sorted_keys m)) _
      (Covers-take m (end_index end_key (get_sorted_keys m)) _ (Covers-get_sorted_keys m h))

member-range_keys :
    (start_key end_key k : GoString) (m : NsUpdates)
    → Distinct (keys m)
    → member k (range_keys start_key end_key m)
      ≡ (is_some (lookup k m) && in_range start_key end_key k)
unfolding range_keys
member-range_keys start_key end_key k m h =
    let (sorted, same) = get_sorted_keys_lem m h in
    member-slice start_key end_key k (get_sorted_keys m) sorted
    ∙ ap (λ b. b && in_range start_key end_key k) (same k)

range_keys-finds :
    (ns start_key end_key k : GoString) (m : NsUpdates)
    → Distinct (keys m)
    → (if member k (range_keys start_key end_key m) then to_item ns k (lookup k m) else none)
      ≡ (if in_range start_key end_key k then to_item ns k (lookup k m) else none)
range_keys-finds ns start_key end_key k m h =
    ground (arith, member-range_keys start_key end_key k m h)

range_keys-IsScan :
    (ns start_key end_key : GoString) (m : NsUpdates)
    → Distinct (keys m)
    → IsScan ns start_key end_key (λ k. lookup k m) (kvs ns m (range_keys start_key end_key m))
range_keys-IsScan ns start_key end_key m h =
    let c : Covers m (range_keys start_key end_key m) = Covers-range_keys start_key end_key m h in
    record {
      increasing =
          rw (key_list-kvs ns m (range_keys start_key end_key m) c)
            (unfold range_keys in Increasing-slice _ _ _ (get_sorted_keys_lem m h).0);
      finds = λ k.
          find_kv-kvs ns m k (range_keys start_key end_key m) c
          ∙ range_keys-finds ns start_key end_key k m h;
    }

get-none :
    (ns k : GoString) (batch : UpdateBatch) → lookup ns batch.updates ≡ none → get ns k batch ≡ none
unfolding get lookup2
get-none ns k batch e = rw (e, lookup2)

get-some :
    (ns k : GoString) (batch : UpdateBatch) (m : NsUpdates)
    → lookup ns batch.updates ≡ some m
    → lookup k m ≡ get ns k batch
unfolding get lookup2
get-some ns k batch m e = rw (e, lookup2)

empty-IsScan :
    (ns start_key end_key : GoString) (batch : UpdateBatch)
    → lookup ns batch.updates ≡ none
    → IsScan ns start_key end_key (λ k. get ns k batch) []
unfolding find_kv
empty-IsScan ns start_key end_key batch e = record {
  increasing = tt;
  finds = λ k. rw (get-none ns k batch e) (ground arith);
}

abbrev scan_start : GoString → GoString → GoString → NsUpdates → NsIterator
scan_start ns start_key end_key m = record {
  ns = ns;
  ns_updates = m;
  sorted_keys = get_sorted_keys m;
  next_index = start_index start_key (get_sorted_keys m);
  last_index = end_index end_key (get_sorted_keys m);
}

scan_start-Yields :
    (ns start_key end_key : GoString) (m : NsUpdates)
    → Distinct (keys m)
    → Yields ns_next (kvs ns m (range_keys start_key end_key m)) (scan_start ns start_key end_key m)
unfolding range_keys
scan_start-Yields ns start_key end_key m h =
    let b : end_index end_key (get_sorted_keys m) ≤ length (get_sorted_keys m) =
      end_index-le end_key (get_sorted_keys m) in
    ns_next-Yields (length (get_sorted_keys m)) (scan_start ns start_key end_key m) b
      (Covers-get_sorted_keys m h) (omega arith)

-- A range scan of a well-formed batch gives, in increasing order and each once, exactly the keys of
-- the range that the batch holds, with their latest values; then it ends.
pub get_range_scan_iterator-IsScan :
    (ns start_key end_key : GoString) (batch : UpdateBatch)
    → IsWf batch
    → (xs : List VersionedKv) × Yields ns_next xs
        (get_range_scan_iterator ns start_key end_key batch)
      × IsScan ns start_key end_key (λ k. get ns k batch) xs
unfolding get_range_scan_iterator
get_range_scan_iterator-IsScan ns start_key end_key batch h =
    elim (Option-cases (lookup ns batch.updates)) [
      | inl e ↦ (
        [],
        rw (e, new_ns_iterator) (unfold ns_next in refl),
        empty-IsScan ns start_key end_key batch e,
      )
      | inr (m, e) ↦
          let distinct : Distinct (keys m) =
            subst (λ u. Distinct (keys u)) (ns_or_new-some ns batch.updates m e) (h.updates ns) in
          (
            kvs ns m (range_keys start_key end_key m),
            rw (e, new_ns_iterator) (scan_start-Yields ns start_key end_key m distinct),
            subst (λ at. IsScan ns start_key end_key at (kvs ns m (range_keys start_key end_key m)))
                (fun_ext (λ k. get-some ns k batch m e))
                (range_keys-IsScan ns start_key end_key m distinct),
          )
    ]
