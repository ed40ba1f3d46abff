-- ===== src/StateDb.antt =====
-- core/ledger/kvledger/txmgmt/statedb/statedb.go: versioned values and the update batch.
pub mod Batch
pub mod Value
pub mod Sort
pub mod Iterator
pub mod Wf
pub mod RangeScan
use eloan_peer.Prelude.{
  ℕ, ◌+◌, Bool, Option, none, some, List, [], ◌∷◌, Error, Result, ok, err, panic, is_some, length,
}
use eloan_peer.Prelude.GoString.{GoString}
use eloan_peer.Prelude.Assoc.{Assoc, lookup, insert, keys}
use eloan_peer.Version.{Height}

-- A value of `none` is Go's nil, which marks a deletion.
pub record VersionedValue : Type 0 where
  pub value : Option GoString
  pub version : Option Height

pub record VersionedKv : Type 0 where
  pub namespace : GoString
  pub key : GoString
  pub value : Option GoString
  pub version : Option Height

abbrev pub NsUpdates : Type 0
NsUpdates = Assoc VersionedValue

-- The pointer to a list object of rlist.go.
abbrev pub RListRef : Type 0
RListRef = ℕ

pub record UpdateBatch : Type 0 where
  pub updates : Assoc NsUpdates
  pub cals : Assoc NsUpdates
  pub r_lists : Assoc (Assoc RListRef)
  pub update_num : ℕ
  pub cal_num : ℕ
  pub r_list_num : ℕ

unfoldable pub new_update_batch : UpdateBatch
new_update_batch = record {
  updates = [];
  cals = [];
  r_lists = [];
  update_num = 0;
  cal_num = 0;
  r_list_num = 0;
}

-- The entry of a namespace in a map of maps, empty where there is none yet.
unfoldable pub ns_or_new {ℓ} : {V : Type ℓ} → GoString → Assoc (Assoc V) → Assoc V
ns_or_new ns m = elim (lookup ns m) [ none ↦ [] | some u ↦ u ]

-- `GetOrCreate…` of one of the three maps: the map of the namespace then exists.
unfoldable pub get_or_create {ℓ} : {V : Type ℓ} → GoString → Assoc (Assoc V) → Assoc (Assoc V)
unfolding ns_or_new
get_or_create ns m = insert ns (ns_or_new ns m) m

unfoldable pub get_or_create_ns_updates : GoString → UpdateBatch → UpdateBatch
unfolding get_or_create
get_or_create_ns_updates ns batch = record batch { updates = get_or_create ns batch.updates }

unfoldable pub get_or_create_ns_cals : GoString → UpdateBatch → UpdateBatch
unfolding get_or_create
get_or_create_ns_cals ns batch = record batch { cals = get_or_create ns batch.cals }

unfoldable pub get_or_create_ns_r_lists : GoString → UpdateBatch → UpdateBatch
unfolding get_or_create
get_or_create_ns_r_lists ns batch = record batch { r_lists = get_or_create ns batch.r_lists }

unfoldable pub get_updates : GoString → UpdateBatch → Option NsUpdates
get_updates ns batch = lookup ns batch.updates

unfoldable pub get_cals : GoString → UpdateBatch → Option NsUpdates
get_cals ns batch = lookup ns batch.cals

unfoldable pub get_r_lists : GoString → UpdateBatch → Option (Assoc RListRef)
get_r_lists ns batch = lookup ns batch.r_lists

unfoldable pub get_updated_namespaces : UpdateBatch → List GoString
get_updated_namespaces batch = keys batch.updates

unfoldable pub get_caled_namespaces : UpdateBatch → List GoString
get_caled_namespaces batch = keys batch.cals

unfoldable pub get_r_lists_namespaces : UpdateBatch → List GoString
get_r_lists_namespaces batch = keys batch.r_lists

-- A key of a map of maps, at a namespace that may be missing.
unfoldable pub lookup2 {ℓ} : {V : Type ℓ} → GoString → GoString → Assoc (Assoc V) → Option V
lookup2 ns key m = elim (lookup ns m) [ none ↦ none | some u ↦ lookup key u ]

-- A write to the map of a namespace, which is created where it is missing.
unfoldable pub insert2 {ℓ} :
    {V : Type ℓ} → GoString → GoString → V → Assoc (Assoc V) → Assoc (Assoc V)
unfolding ns_or_new
insert2 ns key v m = insert ns (insert key v (ns_or_new ns m)) m

unfoldable pub get : GoString → GoString → UpdateBatch → Option VersionedValue
unfolding lookup2
get ns key batch = lookup2 ns key batch.updates

unfoldable pub exists : GoString → GoString → UpdateBatch → Bool
unfolding lookup2
exists ns key batch = is_some (lookup2 ns key batch.updates)

-- A nil value panics.
unfoldable pub put :
    GoString → GoString → Option GoString → Option Height → UpdateBatch → Result UpdateBatch
unfolding insert2
put ns key none version batch = err panic
put ns key (some value) version batch = ok (record batch {
  updates = insert2 ns key (record { value = some value; version = version }) batch.updates;
})

unfoldable pub delete : GoString → GoString → Option Height → UpdateBatch → UpdateBatch
unfolding insert2
delete ns key version batch = record batch {
  updates = insert2 ns key (record { value = none; version = version }) batch.updates;
}

sum_sizes : Assoc NsUpdates → List GoString → ℕ
unfolding ns_or_new
sum_sizes m [] = 0
sum_sizes m (ns ∷ l) = length (ns_or_new ns m) + sum_sizes m l

unfoldable pub get_update_size : UpdateBatch → ℕ
unfolding sum_sizes
get_update_size batch = sum_sizes batch.updates (keys batch.updates)
