-- ===== src/Tests/Simulations.antt =====
-- A simulation on a small state: a read, a write, a deletion, and a read of what was written.
use eloan_peer.Prelude.{◌≡◌, refl, Option, none, some, List, [], ◌∷◌, All, Error, Result, ok, codes}
use eloan_peer.Prelude.GoString.{GoString, has_prefix}
use eloan_peer.Rwset.{KvRead}
use eloan_peer.Rwset.Builder.{RwsetBuilder, get_tx_read_write_set}
use eloan_peer.Rwset.Codec.{to_proto_bytes}
use eloan_peer.Simulator.{QueryHelper}
use eloan_peer.Simulator.Iterators.{new_tx_simulator, get_tx_simulation_results}
use eloan_peer.Simulator.Reads.{IsValid}
use eloan_peer.Simulator.Sessions.{
  SimulatorCall, read_call, write_call, delete_call, calls, IsPlain,
  get_tx_simulation_results-IsValid,
}
use eloan_peer.Tests.Fixtures.{ns, key_a, key_b, db, state, db-Represents}
use eloan_peer.Tests.Ledgers.{proto}
use eloan_peer.Tests.Lists.{no_codec}

abbrev accept : GoString → Option Error
accept key = none

abbrev serialize : List KvRead → Result GoString
serialize rs = ok []

abbrev hasher : GoString → Result GoString
hasher b = ok b

abbrev run : List SimulatorCall
run =
    read_call ns key_a
    ∷ write_call ns key_a (some (codes "v"))
    ∷ delete_call ns key_b
    ∷ read_call ns key_a
    ∷ []

run-IsPlain : All (IsPlain accept) run
unfolding has_prefix
run-IsPlain = (refl, (refl, (refl, (refl, tt))))

get_tx_simulation_results-IsValid_example :
    (h : QueryHelper db) × (rws : RwsetBuilder) × (calls db no_codec 5 accept run
        (new_tx_simulator db)
      ≡ ok h)
    × ((get_tx_simulation_results db proto serialize hasher h).0
        ≡ to_proto_bytes proto (get_tx_read_write_set rws))
    × All (IsValid db) (get_tx_read_write_set rws).ns_rw_sets
get_tx_simulation_results-IsValid_example =
    get_tx_simulation_results-IsValid db no_codec 5 accept state proto serialize hasher
      db-Represents run run-IsPlain
