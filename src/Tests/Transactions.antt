-- ===== src/Tests/Transactions.antt =====
-- A transaction that read one key which is still current, and writes two.
use eloan_peer.StateDb.Sort.{Increasing}
use eloan_peer.Rwset.Builder.{new_rwset_builder, add_to_write_set}
use eloan_peer.Rwset.Builder.Writes.{
  IsWfBuilder, IsWfBuilder-new, find_write, write_keys, writes_of, add_to_write_set_lem,
}
use eloan_peer.Prelude.{
  ◌≡◌, ◌↔◌, ◌&&◌, if◌then◌else◌, refl, Bool, true, false, none, some, [], ◌∷◌, ok, codes,
}
use eloan_peer.Prelude.GoString.{GoString, str_eq}
use eloan_peer.StateDb
use eloan_peer.StateDb.{UpdateBatch, VersionedValue, put, delete, get, insert2, ns_or_new}
use eloan_peer.StateDb.Batch.{get-put, get-delete}
use eloan_peer.StateDb.Wf.{IsWf}
use eloan_peer.Rwset.{KvRead, TxRwSet, new_version}
use eloan_peer.Validator.{add_write_set_to_batch, validate_read_set}
use eloan_peer.Validator.Reads.{AreCurrent, validate_read_set_iff}
use eloan_peer.Validator.Writes.{last_of_sets, add_write_set_to_batch_lem, HaveValues}
use eloan_peer.Tests.Fixtures.{
  small_1, versions-Fit, ns, key_a, key_b, height_2, updates, db, state, db-Represents,
}

abbrev read_a : KvRead
read_a = record { key = key_a; version = some (record { block_num = 1; tx_num = 0 }) }

validate_read_set_iff_example :
    (b : Bool) × (validate_read_set db ns (read_a ∷ []) updates ≡ ok b)
    × ((b ≡ true) ↔ AreCurrent db state ns updates (read_a ∷ []))
unfolding new_version
validate_read_set_iff_example =
    validate_read_set_iff db state ns updates db-Represents (read_a ∷ [])
      ((versions-Fit key_a).0, small_1, tt)

abbrev tx : TxRwSet
tx = record {
  ns_rw_sets =
      record {
        name_space = ns;
        kv_rw_set = record {
          reads = read_a ∷ [];
          range_queries_info = [];
          writes =
              record { key = key_a; is_delete = true; value = none }
              ∷ record { key = key_b; is_delete = false; value = some (codes "y") }
              ∷ [];
        };
      }
      ∷ [];
}

tx-HaveValues : HaveValues tx.ns_rw_sets
tx-HaveValues = (((λ d c. cc), ((λ d c. refl), tt)), tt)

add_write_set_to_batch_example :
    (batch' : UpdateBatch) × (add_write_set_to_batch tx height_2 updates ≡ ok batch')
    × ((ns' key : GoString)
        → StateDb.get ns' key batch'
          ≡ last_of_sets ns' key tx.ns_rw_sets height_2 (StateDb.get ns' key updates))
    × (IsWf updates → IsWf batch')
add_write_set_to_batch_example = add_write_set_to_batch_lem tx height_2 updates tx-HaveValues

get-put_example :
    (batch' : UpdateBatch) × (put ns key_a (some (codes "y")) (some height_2) updates ≡ ok batch')
    × (get ns key_b batch' ≡ (
        if str_eq ns ns && str_eq key_a key_b
        then some (record { value = some (codes "y"); version = some height_2 })
        else get ns key_b updates))
get-put_example = get-put ns key_a ns key_b (codes "y") (some height_2) updates

get-delete_example : get ns key_a (delete ns key_a (some height_2) updates) ≡ (
    if str_eq ns ns && str_eq key_a key_a
    then some (record { value = none; version = some height_2 })
    else get ns key_a updates)
get-delete_example = get-delete ns key_a ns key_a (some height_2) updates

add_to_write_set_lem_example :
    IsWfBuilder (add_to_write_set ns key_a none new_rwset_builder)
    × ((ns' k : GoString)
        → (find_write k (writes_of ns' (add_to_write_set ns key_a none new_rwset_builder)) ≡ (
            if str_eq ns ns' && str_eq key_a k
            then some (record { key = key_a; is_delete = true; value = none })
            else find_write k (writes_of ns' new_rwset_builder)))
          × Increasing
              (write_keys (writes_of ns' (add_to_write_set ns key_a none new_rwset_builder))))
add_to_write_set_lem_example = add_to_write_set_lem ns key_a none new_rwset_builder IsWfBuilder-new
