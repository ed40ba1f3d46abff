-- ===== src/Simulator.antt =====
-- helper.go, lockbased_query_executer.go and lockbased_tx_simulator.go of lockbasedtxmgr: what a
-- simulation reads and writes, collected in a builder. A query executor has no builder.
pub mod Iterators
pub mod Reads
pub mod Sessions
use eloan_peer.Prelude.{
  ℕ, Bool, true, false, Option, none, some, List, [], ◌∷◌, ◌++◌, Error, failed, panic, Result, ok,
  err, ◌>>=◌, codes, get_elem?, set, drop, if◌then◌else◌,
}
use eloan_peer.Prelude.GoString.{GoString, has_prefix}
use eloan_peer.Prelude.Assoc.{Assoc, lookup, insert}
use eloan_peer.Version.{Height}
use eloan_peer.StateDb.{VersionedValue, VersionedKv, RListRef, ns_or_new}
use eloan_peer.VersionedDb.{VersionedDb}
use eloan_peer.Rwset.{KvRead, RangeQueryInfo, no_reads, raw_reads, reads_merkle_hashes, new_kv_read}
use eloan_peer.Rwset.Builder.{
  RwsetBuilder, new_rwset_builder, add_to_read_set, add_to_write_set, add_to_range_query_set,
  get_tx_read_write_set,
}
use eloan_peer.Rwset.Codec.{ProtoCodec, to_proto_bytes}
use eloan_peer.Rwset.MerkleTree.{Hasher}
use eloan_peer.Rwset.ResultsHelper.{
  ResultsHelper, Final, new_results_helper, add_result, helper_done,
}
use eloan_peer.Strings.{slice_from, slice_to, split, equal_fold}
use eloan_peer.Strconv.{format_int}
use eloan_peer.Validator.Computed.{int_or_zero}
use eloan_peer.Rlist.{ListCodec, Store, deref}
use eloan_peer.Rlist.Load.{new_r_list}
use eloan_peer.Rlist.Lookup.{get_id_by_index, index_of_id}

-- queryresult.KV
pub record Kv : Type 0 where
  pub namespace : GoString
  pub key : GoString
  pub value : Option GoString

abbrev pub r_list_prefix : GoString
r_list_prefix = codes "__RLIST_"

unfoldable pub decompose_versioned_value : Option VersionedValue → Option GoString × Option Height
decompose_versioned_value none = (none, none)
decompose_versioned_value (some v) = (v.value, v.version)

-- A read where there is a builder.
unfoldable pub record_read :
    GoString → GoString → Option Height → Option RwsetBuilder → Option RwsetBuilder
record_read ns key version none = none
record_read ns key version (some rws) = some (add_to_read_set ns key version rws)

-- `lisParam[1]`, which panics where there is no second part.
unfoldable pub second_part : List GoString → Result GoString
second_part [] = err panic
second_part (s ∷ l) = ok s

-- What an iterator of a simulation captures: the info, and the helper of the results.
pub record Capture : Type 0 where
  pub end_key : GoString
  pub range_query_info : RangeQueryInfo
  pub range_query_results_helper : ResultsHelper

module _ (db : VersionedDb) where
  pub record ResultsItr : Type 0 where
    pub ns : GoString
    pub db_itr : db.Iter
    pub capture : Option Capture

  pub record QueryHelper : Type 0 where
    pub rwset_builder : Option RwsetBuilder
    pub itrs : List ResultsItr
    pub error : Option Error
    pub done_invoked : Bool
    pub r_lists : Assoc (Assoc RListRef)
    pub store : Store

  unfoldable pub new_query_helper : Option RwsetBuilder → QueryHelper
  new_query_helper rws = record {
    rwset_builder = rws;
    itrs = [];
    error = none;
    done_invoked = false;
    r_lists = [];
    store = [];
  }

  unfoldable pub check_done : QueryHelper → Result QueryHelper
  check_done h = elim h.done_invoked [ true ↦ err panic | false ↦ ok h ]

  unfoldable pub get_plain_state :
      GoString → GoString → QueryHelper → Result (Option GoString × QueryHelper)
  get_plain_state ns key h = do
    versioned_value ← db.get_state ns key
    let d = decompose_versioned_value versioned_value
    ok (d.0, record h { rwset_builder = record_read ns key d.1 h.rwset_builder })

  -- `keys[i]` panics where the database returns more values than keys.
  unfoldable pub record_values :
      GoString
      → List GoString
      → List (Option VersionedValue)
      → QueryHelper
      → Result (List (Option GoString) × QueryHelper)
  record_values ns keys [] h = ok ([], h)
  record_values ns [] (v ∷ vs) h = elim h.rwset_builder [
    | some rws ↦ err panic
    | none ↦ (do p ← record_values ns [] vs h; ok ((decompose_versioned_value v).0 ∷ p.0, p.1))
  ]
  record_values ns (key ∷ keys) (v ∷ vs) h = do
    let d = decompose_versioned_value v
    p ←
        record_values ns keys vs
          (record h { rwset_builder = record_read ns key d.1 h.rwset_builder })
    ok (d.0 ∷ p.0, p.1)

module _ (db : VersionedDb) (codec : ListCodec) (fuel : ℕ) where
  -- The list of a name, from the map of the simulation or else from the state.
  unfoldable pub list_of : GoString → GoString → QueryHelper db → Result (RListRef × QueryHelper db)
  list_of ns name h = elim (lookup name (ns_or_new ns h.r_lists)) [
    | some r ↦ ok (r, h)
    | none ↦ (do
      p ← new_r_list db codec fuel ns name h.store
      ok (
        p.0,
        record h {
          r_lists = insert ns (insert name p.0 (ns_or_new ns h.r_lists)) h.r_lists;
          store = p.1;
        },
      ))
  ]

  -- LEN, GET and IDX, in any case of letters; another method gives an empty value.
  unfoldable pub list_value :
      GoString → List GoString → RListRef → Store → Result (GoString × Store)
  list_value method params r s =
      if equal_fold method (codes "LEN")
      then (do p ← deref r s; ok (format_int p.0.size, p.1))
      else if equal_fold method (codes "GET")
      then (do a ← second_part params; get_id_by_index db codec fuel r (int_or_zero (some a)) s)
      else if equal_fold method (codes "IDX")
      then (do
        a ← second_part params
        p ← index_of_id db codec fuel r a s
        ok (format_int p.0, p.1))
      else ok ([], s)

  unfoldable pub get_list_state :
      GoString → GoString → QueryHelper db → Result (Option GoString × QueryHelper db)
  get_list_state ns key h = do
    param_str ← slice_from 8 key
    method ← slice_to 3 param_str
    rest ← slice_from 4 param_str
    let params = split b',' rest
    p ← list_of ns params.0 h
    q ← list_value method params.1 p.0 p.1.store
    ok (some q.0, record p.1 { store = q.1 })

  unfoldable pub get_state :
      GoString → GoString → QueryHelper db → Result (Option GoString × QueryHelper db)
  get_state ns key h = do
    h ← check_done db h
    elim (has_prefix key r_list_prefix) [
      | true ↦ get_list_state ns key h
      | false ↦ get_plain_state db ns key h
    ]

-- `GetStateMultipleKeys` of the database is a parameter.
module _ (db : VersionedDb)
    (state_multiple_keys : GoString → List GoString → Result (List (Option VersionedValue))) where
  -- An error of the database is dropped: the values are nil then.
  unfoldable pub get_state_multiple_keys :
      GoString
      → List GoString
      → QueryHelper db
      → Result (Option (List (Option GoString)) × QueryHelper db)
  get_state_multiple_keys ns keys h = do
    h ← check_done db h
    elim (state_multiple_keys ns keys) [
      | err panic ↦ err panic
      | err (failed text) ↦ ok (none, h)
      | ok vs ↦ (do p ← record_values db ns keys vs h; ok (some p.0, p.1))
    ]
