-- ===== src/Rwset/Builder.antt =====
-- RWSetBuilder of rwset_builder.go: collects the reads, writes and range queries of a simulation.
pub mod Writes
use eloan_peer.Prelude.{
  Bool, true, false, not, ◌&&◌, Option, none, some, List, [], ◌∷◌, ◌++◌, if◌then◌else◌, is_some,
}
use eloan_peer.Prelude.GoString.{GoString, str_eq}
use eloan_peer.Prelude.Assoc.{Assoc, lookup, insert}
use eloan_peer.Version.{Height}
use eloan_peer.StateDb.Sort.{get_sorted_keys}
use eloan_peer.Rwset.{KvRead, KvWrite, RangeQueryInfo, NsRwSet, TxRwSet, new_kv_read, new_kv_write}

pub record RangeQueryKey : Type 0 where
  pub start_key : GoString
  pub end_key : GoString
  pub itr_exhausted : Bool

abbrev pub bool_eq : Bool → Bool → Bool
bool_eq true b = b
bool_eq false b = not b

-- Go's `==` on the key structs.
unfoldable pub key_eq : RangeQueryKey → RangeQueryKey → Bool
key_eq a b =
    str_eq a.start_key b.start_key
    && (str_eq a.end_key b.end_key && bool_eq a.itr_exhausted b.itr_exhausted)

unfoldable pub find_query :
    RangeQueryKey → List (RangeQueryKey × RangeQueryInfo) → Option RangeQueryInfo
find_query k [] = none
find_query k ((j, q) ∷ l) = if key_eq j k then some q else find_query k l

-- The map of range queries is only written where a key is missing, at its end here.
pub record NsRws : Type 0 where
  pub read_map : Assoc KvRead
  pub write_map : Assoc KvWrite
  pub range_queries_map : List (RangeQueryKey × RangeQueryInfo)
  pub range_queries_keys : List RangeQueryKey

unfoldable pub new_ns_rws : NsRws
new_ns_rws = record {
  read_map = [];
  write_map = [];
  range_queries_map = [];
  range_queries_keys = [];
}

pub record RwsetBuilder : Type 0 where
  pub rw_map : Assoc NsRws

unfoldable pub new_rwset_builder : RwsetBuilder
new_rwset_builder = record { rw_map = [] }

-- The entry of the namespace, new where it is missing; the callers write it back.
unfoldable pub get_or_create_ns_rw : GoString → RwsetBuilder → NsRws
unfolding new_ns_rws
get_or_create_ns_rw ns rws = elim (lookup ns rws.rw_map) [ none ↦ new_ns_rws | some r ↦ r ]

unfoldable pub store_ns_rw : GoString → NsRws → RwsetBuilder → RwsetBuilder
store_ns_rw ns r rws = record rws { rw_map = insert ns r rws.rw_map }

unfoldable pub add_to_read_set : GoString → GoString → Option Height → RwsetBuilder → RwsetBuilder
unfolding get_or_create_ns_rw store_ns_rw
add_to_read_set ns key version rws =
    let r = get_or_create_ns_rw ns rws in
    store_ns_rw ns (record r { read_map = insert key (new_kv_read key version) r.read_map }) rws

unfoldable pub add_to_write_set :
    GoString → GoString → Option GoString → RwsetBuilder → RwsetBuilder
unfolding get_or_create_ns_rw store_ns_rw
add_to_write_set ns key value rws =
    let r = get_or_create_ns_rw ns rws in
    store_ns_rw ns (record r { write_map = insert key (new_kv_write key value) r.write_map }) rws

abbrev pub query_key : RangeQueryInfo → RangeQueryKey
query_key rqi = record {
  start_key = rqi.start_key;
  end_key = rqi.end_key;
  itr_exhausted = rqi.itr_exhausted;
}

add_query : RangeQueryInfo → NsRws → NsRws
add_query rqi r = if is_some (find_query (query_key rqi) r.range_queries_map) then r else record r {
  range_queries_map = r.range_queries_map ++ (query_key rqi, rqi) ∷ [];
  range_queries_keys = r.range_queries_keys ++ query_key rqi ∷ [];
}

unfoldable pub add_to_range_query_set : GoString → RangeQueryInfo → RwsetBuilder → RwsetBuilder
unfolding get_or_create_ns_rw store_ns_rw add_query
add_to_range_query_set ns rqi rws = store_ns_rw ns (add_query rqi (get_or_create_ns_rw ns rws)) rws

-- `for _, key := range keys { l = append(l, m[key]) }` over the keys of the map itself.
unfoldable pub collect {ℓ} : {V : Type ℓ} → Assoc V → List GoString → List V
collect m [] = []
collect m (k ∷ l) = elim (lookup k m) [ none ↦ collect m l | some v ↦ v ∷ collect m l ]

unfoldable pub collect_queries :
    List (RangeQueryKey × RangeQueryInfo) → List RangeQueryKey → List RangeQueryInfo
collect_queries m [] = []
collect_queries m (k ∷ l) = elim (find_query k m) [
  | none ↦ collect_queries m l
  | some q ↦ q ∷ collect_queries m l
]

unfoldable pub ns_read_write_set : GoString → NsRws → NsRwSet
unfolding collect collect_queries
ns_read_write_set ns r = record {
  name_space = ns;
  kv_rw_set = record {
    reads = collect r.read_map (get_sorted_keys r.read_map);
    range_queries_info = collect_queries r.range_queries_map r.range_queries_keys;
    writes = collect r.write_map (get_sorted_keys r.write_map);
  };
}

unfoldable pub ns_read_write_sets : Assoc NsRws → List GoString → List NsRwSet
ns_read_write_sets m [] = []
ns_read_write_sets m (ns ∷ l) = elim (lookup ns m) [
  | none ↦ ns_read_write_sets m l
  | some r ↦ ns_read_write_set ns r ∷ ns_read_write_sets m l
]

unfoldable pub get_tx_read_write_set : RwsetBuilder → TxRwSet
unfolding ns_read_write_sets ns_read_write_set
get_tx_read_write_set rws = record {
  ns_rw_sets = ns_read_write_sets rws.rw_map (get_sorted_keys rws.rw_map);
}
