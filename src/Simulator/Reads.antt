-- ===== src/Simulator/Reads.antt =====
-- What a simulation has read is valid against the state that it ran on.
use eloan_peer.Prelude.{
  ◌≡◌, refl, sym, true, Option, none, some, List, [], ◌∷◌, All, ok, Option-cases, inl, inr, arith,
}
use mathlib.Core.Path.{subst}
use eloan_peer.Prelude.GoString.{GoString, str_eq→≡}
use eloan_peer.Prelude.Assoc.{Assoc, lookup, insert, lookup-insert}
use eloan_peer.Version.{Height, are_same, compare_height, new_height}
use eloan_peer.StateDb.{VersionedValue, new_update_batch, exists}
use eloan_peer.StateDb.Sort.{get_sorted_keys}
use eloan_peer.VersionedDb.{VersionedDb, Represents}
use eloan_peer.Rwset.{KvRead, NsRwSet, new_kv_read, new_kv_write, new_version, new_proto_version}
use eloan_peer.Rwset.Builder.{
  NsRws, RwsetBuilder, new_ns_rws, get_or_create_ns_rw, store_ns_rw, add_to_read_set,
  add_to_write_set, collect, ns_read_write_set, ns_read_write_sets,
}
use eloan_peer.Validator.{validate_kv_read, validate_read_set, committed_version}
use eloan_peer.Simulator.{decompose_versioned_value}

are_same_refl : (o : Option Height) → are_same o o ≡ true
unfolding are_same compare_height
are_same_refl none = refl
are_same_refl (some h) = ground arith

version-back : (o : Option Height) → new_version (new_proto_version o) ≡ o
unfolding new_version new_proto_version new_height
version-back none = refl
version-back (some h) = refl

committed_version_lem :
    (o : Option VersionedValue) → committed_version o ≡ (decompose_versioned_value o).1
unfolding decompose_versioned_value
committed_version_lem none = refl
committed_version_lem (some v) = refl

module _ (db : VersionedDb) where
  -- A set of the simulation passes the check of its reads.
  abbrev pub IsValid : NsRwSet → Type 0
  IsValid set = validate_read_set db set.name_space set.kv_rw_set.reads new_update_batch ≡ ok true

module _ (db : VersionedDb) (at : GoString → GoString → Option VersionedValue) where
  -- The read of a key in the state.
  abbrev read_of : GoString → GoString → KvRead
  read_of ns key = new_kv_read key (decompose_versioned_value (at ns key)).1

  validate-read_of :
      Represents db at
      → (ns key : GoString) → validate_kv_read db ns (read_of ns key) new_update_batch ≡ ok true
  unfolding validate_kv_read new_kv_read exists new_update_batch lookup
  validate-read_of rep ns key = ground (
    arith,
    rep.state ns key,
    version-back (decompose_versioned_value (at ns key)).1,
    committed_version_lem (at ns key),
    are_same_refl (decompose_versioned_value (at ns key)).1,
  )

  -- Every read in the builder is the read of its key.
  unfoldable pub AreReads : RwsetBuilder → Type 0
  AreReads rws =
      (ns key : GoString) (r : NsRws) (read : KvRead)
      → lookup ns rws.rw_map ≡ some r
      → lookup key r.read_map ≡ some read
      → read ≡ read_of ns key

  created-reads :
      (rws : RwsetBuilder) (ns key : GoString) (read : KvRead)
      → AreReads rws
      → lookup key (get_or_create_ns_rw ns rws).read_map ≡ some read
      → read ≡ read_of ns key
  unfolding AreReads get_or_create_ns_rw new_ns_rws lookup
  created-reads rws ns key read reads e = elim (Option-cases (lookup ns rws.rw_map)) [
    | inl q ↦ ground (arith, q)
    | inr (r, q) ↦ reads ns key r read q (ground arith)
  ]

  pub AreReads-read :
      (rws : RwsetBuilder) (ns key : GoString)
      → AreReads rws
      → AreReads (add_to_read_set ns key (decompose_versioned_value (at ns key)).1 rws)
  unfolding AreReads add_to_read_set store_ns_rw
  AreReads-read rws ns key reads ns' key' r read e f =
      let here = get_or_create_ns_rw ns rws in
      let version = (decompose_versioned_value (at ns key)).1 in
      let new = record here { read_map = insert key (new_kv_read key version) here.read_map } in
      ground (
        arith,
        lookup-insert ns ns' new rws.rw_map,
        str_eq→≡ ns ns',
        lookup-insert key key' (new_kv_read key version) here.read_map,
        str_eq→≡ key key',
        reads ns' key' r read,
        created-reads rws ns key' read reads,
      )

  pub AreReads-write :
      (rws : RwsetBuilder) (ns key : GoString) (value : Option GoString)
      → AreReads rws
      → AreReads (add_to_write_set ns key value rws)
  unfolding AreReads add_to_write_set store_ns_rw
  AreReads-write rws ns key value reads ns' key' r read e f =
      let here = get_or_create_ns_rw ns rws in
      let new = record here { write_map = insert key (new_kv_write key value) here.write_map } in
      ground (
        arith,
        lookup-insert ns ns' new rws.rw_map,
        str_eq→≡ ns ns',
        reads ns' key' r read,
        created-reads rws ns key' read reads,
      )

  validate-collect :
      Represents db at
      → (ns : GoString) (m : Assoc KvRead)
      → ((key : GoString) (read : KvRead) → lookup key m ≡ some read → read ≡ read_of ns key)
      → (l : List GoString) → validate_read_set db ns (collect m l) new_update_batch ≡ ok true
  unfolding validate_read_set collect
  validate-collect rep ns m reads [] = refl
  validate-collect rep ns m reads (k ∷ l) = elim (Option-cases (lookup k m)) [
    | inl e ↦ ground (arith, e, validate-collect rep ns m reads l)
    | inr (read, e) ↦
        ground
          (arith, e, reads k read e, validate-read_of rep ns k, validate-collect rep ns m reads l)
  ]

  pub IsValid-sets :
      Represents db at
      → (rws : RwsetBuilder) → AreReads rws
      → (l : List GoString) → All (IsValid db) (ns_read_write_sets rws.rw_map l)
  unfolding ns_read_write_sets ns_read_write_set AreReads
  IsValid-sets rep rws reads [] = tt
  IsValid-sets rep rws reads (ns ∷ l) = elim (Option-cases (lookup ns rws.rw_map)) [
    | inl e ↦
        let same : ns_read_write_sets rws.rw_map (ns ∷ l) ≡ ns_read_write_sets rws.rw_map l =
          ground (arith, e) in
        subst (All (IsValid db)) (sym same) (IsValid-sets rep rws reads l)
    | inr (r, e) ↦
        let same : ns_read_write_sets rws.rw_map (ns ∷ l)
            ≡ ns_read_write_set ns r ∷ ns_read_write_sets rws.rw_map l =
          ground (arith, e) in
        subst (All (IsValid db)) (sym same) (
          validate-collect rep ns r.read_map (λ key read f. reads ns key r read e f)
              (get_sorted_keys r.read_map),
          IsValid-sets rep rws reads l,
        )
  ]
