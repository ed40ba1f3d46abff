-- ===== src/History/Queries.antt =====
-- The history of a key: histmgr_helper.go and historyleveldb_query_executer.go.
use eloan_peer.Prelude.{
  ℕ, ◌+◌, Bool, true, false, Option, none, some, List, [], ◌∷◌, failed, panic, Result, ok, err,
  ◌>>=◌, codes, length, take, drop, if◌then◌else◌,
}
use eloan_peer.Prelude.GoString.{GoString, str_eq}
use eloan_peer.Strings.{index, slice_from}
use eloan_peer.Version.Codec.{VarintCodec}
use eloan_peer.Rwset.{KvWrite, NsRwSet, TxRwSet}
use eloan_peer.Rwset.Codec.{ProtoCodec, from_proto_bytes}
use eloan_peer.StateLevelDb.{LevelDb}
use eloan_peer.Validator.Block.{ChannelHeader}
use eloan_peer.History.{construct_partial_composite_history_key}

-- `SplitN(bytes, separator, 2)` and its two parts.
unfoldable pub split_composite_history_key : GoString → GoString → Result (GoString × GoString)
split_composite_history_key bytes_to_split separator = elim (index bytes_to_split separator) [
  | none ↦ err panic
  | some i ↦ ok (take i bytes_to_split, drop (i + length separator) bytes_to_split)
]

-- queryresult.KeyModification
pub record KeyModification : Type 0 where
  pub tx_id : GoString
  pub value : Option GoString
  pub timestamp : GoString
  pub is_delete : Bool

-- What the query calls of the block store and of protobuf: a transaction by its block and number,
-- the bytes of its channel header and its data, the results of its first action, and the header.
pub record TxDecoders : Type 0 where
  pub retrieve_tx : ℕ → ℕ → Result GoString
  pub payload_of : GoString → Result (GoString × GoString)
  pub action_results : GoString → Result GoString
  pub channel_header : GoString → Result ChannelHeader

unfoldable pub find_key_write : GoString → List KvWrite → Option KvWrite
find_key_write key [] = none
find_key_write key (w ∷ ws) =
    let rest = find_key_write key ws in if str_eq w.key key then some w else rest

unfoldable pub find_namespace : GoString → List NsRwSet → Option NsRwSet
find_namespace ns [] = none
find_namespace ns (s ∷ sets) =
    let rest = find_namespace ns sets in if str_eq s.name_space ns then some s else rest

-- The first write of the key in the first set of the namespace.
unfoldable pub modification_of :
    GoString → GoString → ChannelHeader → TxRwSet → Result KeyModification
modification_of ns key chdr set = elim (find_namespace ns set.ns_rw_sets) [
  | none ↦ err (failed (codes "Namespace not found in transaction's ReadWriteSets"))
  | some s ↦ elim (find_key_write key s.kv_rw_set.writes) [
    | none ↦ err (failed (codes "Key not found in namespace's writeset"))
    | some w ↦ ok (record {
      tx_id = chdr.tx_id;
      value = w.value;
      timestamp = chdr.timestamp;
      is_delete = w.is_delete;
    })
  ]
]

module _ (proto : ProtoCodec) (decode : TxDecoders) where
  unfoldable pub get_key_modification_from_tran :
      GoString → GoString → GoString → Result KeyModification
  get_key_modification_from_tran tran_envelope ns key = do
    payload ← decode.payload_of tran_envelope
    results ← decode.action_results payload.1
    chdr ← decode.channel_header payload.0
    set ← from_proto_bytes proto results
    modification_of ns key chdr set

module _ (level : LevelDb) where
  pub record HistoryScanner : Type 0 where
    pub composite_partial_key : GoString
    pub namespace : GoString
    pub key : GoString
    pub db_itr : level.Iter

  unfoldable pub get_history_for_key :
      Bool → GoString → GoString → level.Store → Result HistoryScanner
  get_history_for_key false namespace key s =
      err (failed (codes "History tracking not enabled - historyDatabase is false"))
  get_history_for_key true namespace key s = ok (record {
    composite_partial_key = construct_partial_composite_history_key namespace key false;
    namespace = namespace;
    key = key;
    db_itr =
        level.get_iterator (construct_partial_composite_history_key namespace key false)
          (construct_partial_composite_history_key namespace key true) s;
  })

module _ (codec : VarintCodec) (level : LevelDb) (proto : ProtoCodec) (decode : TxDecoders) where
  -- The number of a block and of a transaction, at the end of a key.
  unfoldable pub height_in : GoString → GoString → Result (ℕ × ℕ)
  height_in history_key separator = do
    parts ← split_composite_history_key history_key separator
    b ← codec.decode parts.1
    rest ← slice_from b.1 parts.1
    t ← codec.decode rest
    ok (b.0, t.0)

  unfoldable pub modification_at : GoString → HistoryScanner level → Result KeyModification
  modification_at history_key scanner = do
    h ← height_in history_key scanner.composite_partial_key
    tran_envelope ← decode.retrieve_tx h.0 h.1
    get_key_modification_from_tran proto decode tran_envelope scanner.namespace scanner.key

  -- `Next` of historyScanner.
  unfoldable pub history_next :
      HistoryScanner level → Result (Option KeyModification) × HistoryScanner level
  history_next scanner =
      let p = level.next_entry scanner.db_itr in
      let moved = record scanner { db_itr = p.1 } in
      elim p.0 [
        | none ↦ (ok none, moved)
        | some e ↦ ((do m ← modification_at e.0 scanner; ok (some m)), moved)
      ]
