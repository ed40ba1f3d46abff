-- ===== src/Tests/Queries.antt =====
-- The history of a key in an association list with one record.
use eloan_peer.Prelude.{◌≡◌, refl, some, [], ◌∷◌, ◌++◌, ok, codes, false, true, arith}
use eloan_peer.Prelude.GoString.{GoString}
use eloan_peer.Prelude.Assoc.{Assoc}
use eloan_peer.Rwset.{KvWrite, TxRwSet}
use eloan_peer.Rwset.Codec.{from_proto_bytes, from_proto_sets}
use eloan_peer.History.{construct_composite_history_key, construct_partial_composite_history_key}
use eloan_peer.History.Queries.{
  KeyModification, TxDecoders, HistoryScanner, get_history_for_key, history_next,
}
use eloan_peer.History.Scans.{IsFirstWrite, history_next-construct}
use eloan_peer.Tests.Fixtures.{ns}
use eloan_peer.Tests.Codecs.{codec}
use eloan_peer.Tests.Blocks.{header}
use eloan_peer.Tests.Ledgers.{level, proto, write_k}

abbrev decode : TxDecoders
decode = record {
  retrieve_tx = λ b t. ok (codes "x");
  payload_of = λ e. ok ([], []);
  action_results = λ d. ok [];
  channel_header = λ b. ok header;
}

abbrev history : Assoc GoString
history = (construct_composite_history_key codec ns (codes "k") 2 0, []) ∷ []

abbrev scanner : HistoryScanner level
scanner = record {
  composite_partial_key = construct_partial_composite_history_key ns (codes "k") false;
  namespace = ns;
  key = codes "k";
  db_itr = history;
}

abbrev modified : KeyModification
modified = record {
  tx_id = codes "t";
  value = some (codes "v");
  timestamp = codes "now";
  is_delete = false;
}

started : get_history_for_key level true ns (codes "k") history ≡ ok scanner
unfolding get_history_for_key
started = refl

abbrev set_k : TxRwSet
set_k = record { ns_rw_sets = (record { name_space = ns; kv_rw_set = write_k }) ∷ [] }

set-read : from_proto_bytes proto [] ≡ ok set_k
unfolding from_proto_bytes from_proto_sets
set-read = refl

abbrev written : KvWrite
written = record { key = codes "k"; is_delete = false; value = some (codes "v") }

first-written : IsFirstWrite ns (codes "k") set_k written
first-written = record {
  sets_before = [];
  sets_after = [];
  of_ns = record { name_space = ns; kv_rw_set = write_k };
  sets_split = refl;
  of_ns_name = refl;
  no_set_before = tt;
  writes_before = [];
  writes_after = [];
  writes_split = refl;
  key_name = refl;
  no_write_before = tt;
}

entry :
    level.next_entry history
    ≡ (some (construct_composite_history_key codec ns (codes "k") 2 0, []), [])
entry = refl

history_next-construct_example :
    (history
      ≡ level.get_iterator
          (ns ++ 0 ∷ (codes "k" ++ 0 ∷ []))
          (ns ++ 0 ∷ (codes "k" ++ 0 ∷ 255 ∷ []))
          history)
    × (history_next codec level proto decode (record scanner { db_itr = history })
        ≡ (ok (some modified), record scanner { db_itr = [] }))
history_next-construct_example =
    history_next-construct codec level proto decode ns (codes "k") [] 2 0 history history [] scanner
      (codes "x") [] ([], []) header set_k written (omega arith) (omega arith) started entry refl
      refl refl refl set-read first-written
