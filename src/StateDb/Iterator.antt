-- ===== src/StateDb/Iterator.antt =====
-- The range scan over an update batch (nsIterator of statedb.go), and iterators in general.
pub mod Scan
pub mod Range
use eloan_peer.Prelude.{
  ℕ, suc, ◌≡◌, Bool, true, false, not, Option, none, some, List, [], ◌∷◌, Error, Result, ok, err,
  panic, leb, ◌&&◌, ◌||◌, if◌then◌else◌, length, get_elem?,
}
use eloan_peer.Prelude.GoString.{GoString, str_eq, str_lt}
use eloan_peer.Prelude.Assoc.{Assoc, lookup}
use eloan_peer.StateDb.{VersionedValue, VersionedKv, NsUpdates, UpdateBatch}
use eloan_peer.StateDb.Sort.{get_sorted_keys, search_strings}

-- What one call of `Next` returns, `ok none` at the end.
abbrev pub Item : Type 0
Item = Result (Option VersionedKv)

pub record NsIterator : Type 0 where
  pub ns : GoString
  pub ns_updates : NsUpdates
  pub sorted_keys : List GoString
  pub next_index : ℕ
  pub last_index : ℕ

abbrev pub is_empty : GoString → Bool
is_empty [] = true
is_empty (c ∷ s) = false

empty_iterator : NsIterator
empty_iterator = record {
  ns = [];
  ns_updates = [];
  sorted_keys = [];
  next_index = 0;
  last_index = 0;
}

-- The index of the first key of the range, and the index behind its last one.
unfoldable pub start_index : GoString → List GoString → ℕ
start_index start_key l = if is_empty start_key then 0 else search_strings l start_key

unfoldable pub end_index : GoString → List GoString → ℕ
end_index end_key l = if is_empty end_key then length l else search_strings l end_key

iterate_updates : GoString → GoString → GoString → NsUpdates → NsIterator
unfolding start_index end_index
iterate_updates ns start_key end_key updates = record {
  ns = ns;
  ns_updates = updates;
  sorted_keys = get_sorted_keys updates;
  next_index = start_index start_key (get_sorted_keys updates);
  last_index = end_index end_key (get_sorted_keys updates);
}

unfoldable pub new_ns_iterator : GoString → GoString → GoString → UpdateBatch → NsIterator
unfolding empty_iterator iterate_updates
new_ns_iterator ns start_key end_key batch = elim (lookup ns batch.updates) [
  | none ↦ empty_iterator
  | some updates ↦ iterate_updates ns start_key end_key updates
]

to_kv : GoString → GoString → Option VersionedValue → Item
to_kv ns key none = err panic
to_kv ns key (some vv) =
    ok (some (record { namespace = ns; key = key; value = vv.value; version = vv.version }))

read_key : NsIterator → Option GoString → Item
unfolding to_kv
read_key itr none = err panic
read_key itr (some key) = to_kv itr.ns key (lookup key itr.ns_updates)

-- `Next` of nsIterator: an index or a key that is not there panics.
unfoldable pub ns_next : NsIterator → Item × NsIterator
unfolding read_key
ns_next itr = if leb itr.last_index itr.next_index then (ok none, itr) else (
  read_key itr (get_elem? itr.sorted_keys itr.next_index),
  record itr { next_index = suc itr.next_index },
)

-- `GetRangeScanIterator` of the batch.
unfoldable pub get_range_scan_iterator : GoString → GoString → GoString → UpdateBatch → NsIterator
unfolding new_ns_iterator
get_range_scan_iterator ns start_key end_key batch = new_ns_iterator ns start_key end_key batch

-- An iterator with the step `next` gives the items of a list one by one, and then the end.
abbrev pub Yields : {S : Type 0} → (S → Item × S) → List VersionedKv → S → Type 0
Yields next [] s = (next s).0 ≡ ok none
Yields next (x ∷ xs) s = ((next s).0 ≡ ok (some x)) × Yields next xs (next s).1

-- `start ≤ key < end`, where an empty bound is no bound.
unfoldable pub in_range : GoString → GoString → GoString → Bool
in_range start_key end_key key =
    (is_empty start_key || not (str_lt key start_key)) && (is_empty end_key || str_lt key end_key)
