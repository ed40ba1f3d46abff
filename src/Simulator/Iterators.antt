-- ===== src/Simulator/Iterators.antt =====
-- The iterators of a simulation, and its end: `resultsItr`, `queryResultsItr` and `done` of
-- helper.go. An iterator that the helper keeps is named by its index.
use eloan_peer.Prelude.{
  ℕ, Bool, true, false, Option, none, some, List, [], ◌∷◌, ◌++◌, Error, panic, Result, ok, err,
  ◌>>=◌, length,
}
use eloan_peer.Prelude.GoString.{GoString}
use eloan_peer.StateDb.{VersionedKv}
use eloan_peer.VersionedDb.{VersionedDb}
use eloan_peer.Rwset.{KvRead, RangeQueryInfo, no_reads, raw_reads, reads_merkle_hashes, new_kv_read}
use eloan_peer.Rwset.Builder.{
  RwsetBuilder, new_rwset_builder, add_to_write_set, add_to_range_query_set, get_tx_read_write_set,
}
use eloan_peer.Rwset.Codec.{ProtoCodec, to_proto_bytes}
use eloan_peer.Rwset.MerkleTree.{Hasher}
use eloan_peer.Rwset.ResultsHelper.{Final, new_results_helper, add_result, helper_done}
use eloan_peer.Simulator.{
  Kv, Capture, ResultsItr, QueryHelper, new_query_helper, check_done, record_read,
}

-- What `Next` returns to the caller.
unfoldable pub kv_of : Option VersionedKv → Option Kv
kv_of none = none
kv_of (some kv) = some (record { namespace = kv.namespace; key = kv.key; value = kv.value })

-- The end of a range is that of the query where the iterator is exhausted, and else the latest key.
-- The error of adding a result is dropped.
module _ (serialize : List KvRead → Result GoString) (hasher : Hasher) where
  unfoldable pub update_range_query_info : Option VersionedKv → Option Capture → Option Capture
  update_range_query_info result none = none
  update_range_query_info none (some c) = some (record c {
    range_query_info = record c.range_query_info { itr_exhausted = true; end_key = c.end_key };
  })
  update_range_query_info (some kv) (some c) = some (record c {
    range_query_info = record c.range_query_info { end_key = kv.key };
    range_query_results_helper =
        (add_result serialize hasher (new_kv_read kv.key kv.version)
          c.range_query_results_helper).1;
  })

  -- What a range query adds to its info when the simulation ends: no results are nil.
  unfoldable pub set_reads : Final serialize hasher → RangeQueryInfo → RangeQueryInfo
  set_reads f info = elim f.summary [
    | some summary ↦ record info { reads_info = reads_merkle_hashes summary }
    | none ↦ elim f.results [ [] ↦ info | r ∷ rs ↦ record info { reads_info = raw_reads (r ∷ rs) } ]
  ]

module _ (db : VersionedDb) (enable_hashing : Bool) (max_degree : ℕ) where
  unfoldable pub new_capture : GoString → GoString → Option RwsetBuilder → Result (Option Capture)
  new_capture start_key end_key none = ok none
  new_capture start_key end_key (some rws) = do
    helper ← new_results_helper enable_hashing max_degree
    ok (
        some (record {
          end_key = end_key;
          range_query_info = record {
            start_key = start_key;
            end_key = [];
            itr_exhausted = false;
            reads_info = no_reads;
          };
          range_query_results_helper = helper;
        }))

  unfoldable pub new_results_itr :
      GoString → GoString → GoString → Option RwsetBuilder → Result (ResultsItr db)
  new_results_itr ns start_key end_key rws = do
    db_itr ← db.get_state_range_scan_iterator ns start_key end_key
    capture ← new_capture start_key end_key rws
    ok (record { ns = ns; db_itr = db_itr; capture = capture })

  -- The iterator's index comes back.
  unfoldable pub get_state_range_scan_iterator :
      GoString → GoString → GoString → QueryHelper db → Result (ℕ × QueryHelper db)
  get_state_range_scan_iterator ns start_key end_key h = do
    h ← check_done db h
    itr ← new_results_itr ns start_key end_key h.rwset_builder
    ok (length h.itrs, record h { itrs = h.itrs ++ itr ∷ [] })

module _ (db : VersionedDb) (serialize : List KvRead → Result GoString) (hasher : Hasher) where
  unfoldable pub results_next : ResultsItr db → Result (Option Kv) × ResultsItr db
  results_next itr =
      let p = db.next itr.db_itr in
      let moved = record itr { db_itr = p.1 } in
      elim p.0 [
        | err e ↦ (err e, moved)
        | ok result ↦ (
          ok (kv_of result),
          record moved { capture = update_range_query_info serialize hasher result itr.capture },
        )
      ]

  -- The range queries of the iterators, in the order in which they were made. The first error ends
  -- the loop and is kept.
  unfoldable pub add_captures : List (ResultsItr db) → RwsetBuilder → Option Error × RwsetBuilder
  add_captures [] rws = (none, rws)
  add_captures (itr ∷ itrs) rws = elim itr.capture [
    | none ↦ (some panic, rws)
    | some c ↦
        let f = helper_done serialize hasher c.range_query_results_helper in
        let rest =
          add_captures itrs
            (add_to_range_query_set itr.ns (set_reads serialize hasher f c.range_query_info) rws) in
        elim f.error [ some e ↦ (some e, rws) | none ↦ rest ]
  ]

  -- The lock is given back and the iterators are closed, whatever the loop has met.
  unfoldable pub done : QueryHelper db → QueryHelper db
  done h = elim h.done_invoked [
    | true ↦ h
    | false ↦ elim h.rwset_builder [
      | none ↦ record h { done_invoked = true }
      | some rws ↦
          let p = add_captures h.itrs rws in
          record h { done_invoked = true; rwset_builder = some p.1; error = p.0 }
    ]
  ]

  -- A record of a query is a read of its key.
  unfoldable pub query_next :
      db.Iter → QueryHelper db → Result (Option Kv) × (db.Iter × QueryHelper db)
  query_next itr h =
      let p = db.next itr in
      elim p.0 [
        | err e ↦ (err e, (p.1, h))
        | ok result ↦ elim result [
          | none ↦ (ok none, (p.1, h))
          | some kv ↦ (
            ok (kv_of (some kv)),
            (
              p.1,
              record h {
                rwset_builder = record_read kv.namespace kv.key kv.version h.rwset_builder;
              },
            ),
          )
        ]
      ]

-- `ValidateKey` of the database is a parameter; its error is `some`.
module _ (db : VersionedDb) (validate_key : GoString → Option Error) where
  unfoldable pub write_state :
      GoString → GoString → Option GoString → QueryHelper db → Result (QueryHelper db)
  write_state ns key value h = elim h.rwset_builder [
    | none ↦ err panic
    | some rws ↦ ok (record h { rwset_builder = some (add_to_write_set ns key value rws) })
  ]

  unfoldable pub set_state :
      GoString → GoString → Option GoString → QueryHelper db → Result (QueryHelper db)
  set_state ns key value h = do
    h ← check_done db h
    elim (validate_key key) [ some e ↦ err e | none ↦ write_state ns key value h ]

  unfoldable pub delete_state : GoString → GoString → QueryHelper db → Result (QueryHelper db)
  delete_state ns key h = set_state ns key none h

  -- The map of the writes is a list in some order.
  unfoldable pub set_state_multiple_keys :
      GoString → List (GoString × Option GoString) → QueryHelper db → Result (QueryHelper db)
  set_state_multiple_keys ns [] h = ok h
  set_state_multiple_keys ns ((k, v) ∷ kvs) h = do
    h ← set_state ns k v h
    set_state_multiple_keys ns kvs h

module _ (db : VersionedDb) where
  unfoldable pub new_tx_simulator : QueryHelper db
  new_tx_simulator = new_query_helper db (some new_rwset_builder)

module _ (db : VersionedDb) (proto : ProtoCodec) where
  -- After `Done`.
  unfoldable pub results_of : QueryHelper db → Result GoString
  results_of h = elim h.error [
    | some e ↦ err e
    | none ↦ elim h.rwset_builder [
      | none ↦ err panic
      | some rws ↦ to_proto_bytes proto (get_tx_read_write_set rws)
    ]
  ]

  unfoldable pub get_tx_simulation_results :
      (List KvRead → Result GoString) → Hasher → QueryHelper db → Result GoString × QueryHelper db
  get_tx_simulation_results serialize hasher h =
      let h' = done db serialize hasher h in (results_of h', h')
