-- ===== src/Rwset/Codec.antt =====
-- ToProtoBytes and FromProtoBytes of rwset_proto_util.go, over protobuf's marshalling.
use eloan_peer.Prelude.{◌≡◌, refl, List, [], ◌∷◌, Result, ok, ◌>>=◌, All}
use eloan_peer.Prelude.GoString.{GoString}
use eloan_peer.Rwset.{KvRwSet, NsRwSet, TxRwSet}

-- proto.Marshal and proto.Unmarshal of the two messages: a KVRWSet, and a TxReadWriteSet, which
-- pairs namespaces with marshalled sets.
pub record ProtoCodec : Type 0 where
  pub marshal_kv : KvRwSet → Result GoString
  pub unmarshal_kv : GoString → Result KvRwSet
  pub marshal_tx : List (GoString × GoString) → Result GoString
  pub unmarshal_tx : GoString → Result (List (GoString × GoString))

module _ (proto : ProtoCodec) where
  unfoldable pub to_proto_sets : List NsRwSet → Result (List (GoString × GoString))
  to_proto_sets [] = ok []
  to_proto_sets (set ∷ sets) = do
    bytes ← proto.marshal_kv set.kv_rw_set
    rest ← to_proto_sets sets
    ok ((set.name_space, bytes) ∷ rest)

  unfoldable pub to_proto_bytes : TxRwSet → Result GoString
  unfolding to_proto_sets
  to_proto_bytes tx = do sets ← to_proto_sets tx.ns_rw_sets; proto.marshal_tx sets

  unfoldable pub from_proto_sets : List (GoString × GoString) → Result (List NsRwSet)
  from_proto_sets [] = ok []
  from_proto_sets ((ns, bytes) ∷ sets) = do
    set ← proto.unmarshal_kv bytes
    rest ← from_proto_sets sets
    ok (record { name_space = ns; kv_rw_set = set } ∷ rest)

  unfoldable pub from_proto_bytes : GoString → Result TxRwSet
  unfolding from_proto_sets
  from_proto_bytes proto_bytes = do
    proto_sets ← proto.unmarshal_tx proto_bytes
    sets ← from_proto_sets proto_sets
    ok (record { ns_rw_sets = sets })

  -- The marshalling of a set succeeds and can be undone.
  abbrev pub IsMarshalled : NsRwSet → Type 0
  IsMarshalled set =
      (bytes : GoString) × (proto.marshal_kv set.kv_rw_set ≡ ok bytes)
      × (proto.unmarshal_kv bytes ≡ ok set.kv_rw_set)

  from_proto_sets-to_proto_sets :
      (sets : List NsRwSet)
      → All IsMarshalled sets
      → (l : List (GoString × GoString)) × (to_proto_sets sets ≡ ok l)
        × (from_proto_sets l ≡ ok sets)
  unfolding to_proto_sets from_proto_sets
  from_proto_sets-to_proto_sets [] h = ([], refl, refl)
  from_proto_sets-to_proto_sets (set ∷ sets) h =
      let (bytes, m, u) = h.0 in
      let (l, a, b) = from_proto_sets-to_proto_sets sets h.1 in
      ((set.name_space, bytes) ∷ l, rw (m, a) refl, rw (u, b) refl)

  -- A transaction's sets are serialised and read back unchanged, in order and with their namespaces,
  -- where protobuf reads back each set and the list of them.
  pub from_proto_bytes-to_proto_bytes :
      (tx : TxRwSet)
      → All IsMarshalled tx.ns_rw_sets
      → ((l : List (GoString × GoString))
          → to_proto_sets tx.ns_rw_sets ≡ ok l
          → (bytes : GoString) × (proto.marshal_tx l ≡ ok bytes)
            × (proto.unmarshal_tx bytes ≡ ok l))
      → (to_proto_bytes tx >>= from_proto_bytes) ≡ ok tx
  unfolding to_proto_bytes from_proto_bytes
  from_proto_bytes-to_proto_bytes tx h law =
      let (l, a, b) = from_proto_sets-to_proto_sets tx.ns_rw_sets h in
      let (bytes, m, u) = law l a in rw (a, m, u, b) refl
