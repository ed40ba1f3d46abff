-- ===== src/Simulator/Sessions.antt =====
-- A simulation as a sequence of calls of its methods, and the validation of its results.
use eloan_peer.Prelude.{
  ℕ, ◌≡◌, refl, false, Option, none, some, List, [], ◌∷◌, All, Error, Result, ok, ◌>>=◌, arith,
}
use eloan_peer.Prelude.GoString.{GoString, has_prefix}
use eloan_peer.StateDb.{VersionedValue}
use eloan_peer.VersionedDb.{VersionedDb, Represents}
use eloan_peer.StateDb.Sort.{get_sorted_keys}
use eloan_peer.Rwset.{KvRead}
use eloan_peer.Rwset.Builder.{
  RwsetBuilder, new_rwset_builder, add_to_read_set, add_to_write_set, get_tx_read_write_set,
}
use eloan_peer.Rwset.Codec.{ProtoCodec, to_proto_bytes}
use eloan_peer.Prelude.Assoc.{lookup}
use eloan_peer.Rwset.MerkleTree.{Hasher}
use eloan_peer.Rlist.{ListCodec}
use eloan_peer.Simulator.{
  QueryHelper, new_query_helper, check_done, decompose_versioned_value, record_read,
  get_plain_state, get_state, r_list_prefix,
}
use eloan_peer.Simulator.Iterators.{
  set_state, write_state, delete_state, new_tx_simulator, done, add_captures, results_of,
  get_tx_simulation_results,
}
use eloan_peer.Simulator.Reads.{AreReads, IsValid, AreReads-read, AreReads-write, IsValid-sets}

pub data SimulatorCall : Type 0 where
  read_call : GoString → GoString → SimulatorCall
  write_call : GoString → GoString → Option GoString → SimulatorCall
  delete_call : GoString → GoString → SimulatorCall

module _ (validate_key : GoString → Option Error) where
  -- A call that names no list, and writes no key that the database refuses.
  abbrev pub IsPlain : SimulatorCall → Type 0
  IsPlain (read_call ns key) = has_prefix key r_list_prefix ≡ false
  IsPlain (write_call ns key value) = validate_key key ≡ none
  IsPlain (delete_call ns key) = validate_key key ≡ none

module _ (db : VersionedDb) (codec : ListCodec) (fuel : ℕ)
    (validate_key : GoString → Option Error) where
  unfoldable pub call : SimulatorCall → QueryHelper db → Result (QueryHelper db)
  call (read_call ns key) h = do p ← get_state db codec fuel ns key h; ok p.1
  call (write_call ns key value) h = set_state db validate_key ns key value h
  call (delete_call ns key) h = delete_state db validate_key ns key h

  unfoldable pub calls : List SimulatorCall → QueryHelper db → Result (QueryHelper db)
  calls [] h = ok h
  calls (c ∷ cs) h = do h' ← call c h; calls cs h'

  module _ (at : GoString → GoString → Option VersionedValue) where
    -- A simulation that goes on, without iterators, with a builder of reads.
    pub record Simulates (h : QueryHelper db) : Type 0 where
      pub rws : RwsetBuilder
      pub building : h.rwset_builder ≡ some rws
      pub going_on : h.done_invoked ≡ false
      pub no_itrs : h.itrs ≡ []
      pub reads : AreReads db at rws

    call-Simulates :
        Represents db at
        → (c : SimulatorCall) (h : QueryHelper db) → IsPlain validate_key c
        → Simulates h
        → (h' : QueryHelper db) × (call c h ≡ ok h') × Simulates h'
    unfolding call get_state check_done get_plain_state record_read set_state write_state
        delete_state
    call-Simulates rep (read_call ns key) h plain sim =
        let rws' = add_to_read_set ns key (decompose_versioned_value (at ns key)).1 sim.rws in
        (
          record h { rwset_builder = some rws' },
          ground (arith, plain, sim.building, sim.going_on, rep.state ns key),
          record {
            rws = rws';
            building = refl;
            going_on = sim.going_on;
            no_itrs = sim.no_itrs;
            reads = AreReads-read db at sim.rws ns key sim.reads;
          },
        )
    call-Simulates rep (write_call ns key value) h plain sim =
        let rws' = add_to_write_set ns key value sim.rws in
        (
          record h { rwset_builder = some rws' },
          ground (arith, plain, sim.building, sim.going_on),
          record {
            rws = rws';
            building = refl;
            going_on = sim.going_on;
            no_itrs = sim.no_itrs;
            reads = AreReads-write db at sim.rws ns key value sim.reads;
          },
        )
    call-Simulates rep (delete_call ns key) h plain sim =
        let rws' = add_to_write_set ns key none sim.rws in
        (
          record h { rwset_builder = some rws' },
          ground (arith, plain, sim.building, sim.going_on),
          record {
            rws = rws';
            building = refl;
            going_on = sim.going_on;
            no_itrs = sim.no_itrs;
            reads = AreReads-write db at sim.rws ns key none sim.reads;
          },
        )

    calls-Simulates :
        Represents db at
        → (cs : List SimulatorCall) (h : QueryHelper db) → All (IsPlain validate_key) cs
        → Simulates h
        → (h' : QueryHelper db) × (calls cs h ≡ ok h') × Simulates h'
    unfolding calls
    calls-Simulates rep [] h plain sim = (h, refl, sim)
    calls-Simulates rep (c ∷ cs) h plain sim =
        let (h', e, sim') = call-Simulates rep c h plain.0 sim in
        let (h'', e', sim'') = calls-Simulates rep cs h' plain.1 sim' in
        (h'', ground (arith, e, e'), sim'')

    started : Simulates (new_tx_simulator db)
    unfolding new_tx_simulator new_query_helper AreReads new_rwset_builder lookup
    started = record {
      rws = new_rwset_builder;
      building = refl;
      going_on = refl;
      no_itrs = refl;
      reads = λ ns key r read e f. cc e;
    }

-- A simulation of reads, writes and deletions of plain keys goes through without an error, and its
-- results are the serialised sets of a builder whose reads are all valid against the state that it
-- ran on, with the batch of a block still empty: for a database that answers from that state, and
-- keys that name no list and are not refused when written.
pub get_tx_simulation_results-IsValid :
    (db : VersionedDb) (codec : ListCodec) (fuel : ℕ) (validate_key : GoString → Option Error)
    (at : GoString → GoString → Option VersionedValue) (proto : ProtoCodec)
    (serialize : List KvRead → Result GoString) (hasher : Hasher)
    → Represents db at
    → (cs : List SimulatorCall) → All (IsPlain validate_key) cs
    → (h : QueryHelper db) × (rws : RwsetBuilder) × (calls db codec fuel validate_key cs
          (new_tx_simulator db)
        ≡ ok h)
      × ((get_tx_simulation_results db proto serialize hasher h).0
          ≡ to_proto_bytes proto (get_tx_read_write_set rws))
      × All (IsValid db) (get_tx_read_write_set rws).ns_rw_sets
unfolding get_tx_simulation_results results_of done add_captures get_tx_read_write_set
get_tx_simulation_results-IsValid db codec fuel validate_key at proto serialize hasher rep cs
      plain =
    let (h, run, sim) =
      calls-Simulates db codec fuel validate_key at rep cs (new_tx_simulator db) plain
        (started db codec fuel validate_key at) in
    (
      h,
      sim.rws,
      run,
      ground (arith, sim.building, sim.going_on, sim.no_itrs),
      IsValid-sets db at rep sim.rws sim.reads (get_sorted_keys sim.rws.rw_map),
    )
