-- ===== src/History/Scans.antt =====
-- The scanner of the history of a key, at a record that the history database has made:
-- `Next` of historyleveldb_query_executer.go.
use eloan_peer.Prelude.{
  ℕ, ◌<◌, ◌≡◌, refl, true, false, some, List, [], ◌∷◌, ◌++◌, append_assoc, append-nil, ok, length,
  drop, All, arith,
}
use mathlib.Core.Path.{subst}
use eloan_peer.Prelude.GoString.{GoString, str_eq, str_eq_refl, has_prefix}
use eloan_peer.Strings.{index, slice_from-append}
use eloan_peer.Version.{two_64}
use eloan_peer.Version.Codec.{VarintCodec}
use eloan_peer.Rwset.{KvWrite, NsRwSet, TxRwSet}
use eloan_peer.Rwset.Codec.{ProtoCodec, from_proto_bytes}
use eloan_peer.StateLevelDb.{LevelDb}
use eloan_peer.Validator.Block.{ChannelHeader}
use eloan_peer.History.Committed.{ok-inj}
use eloan_peer.History.{construct_composite_history_key, construct_partial_composite_history_key}
use eloan_peer.History.Queries.{
  split_composite_history_key, KeyModification, TxDecoders, get_key_modification_from_tran,
  find_namespace, find_key_write, modification_of, HistoryScanner, get_history_for_key, height_in,
  modification_at, history_next,
}

has_prefix-append : (p s : GoString) → has_prefix (p ++ s) p ≡ true
unfolding has_prefix
has_prefix-append [] s = refl
has_prefix-append (c ∷ p) s = ground (arith, has_prefix-append p s)

index-prefix : (s p : GoString) → has_prefix s p ≡ true → index s p ≡ some 0
unfolding index has_prefix str_eq
index-prefix [] [] h = refl
index-prefix [] (c ∷ p) h = cc
index-prefix (d ∷ s) p h = ground (arith, h)

drop-append : (p s : GoString) → drop (length p) (p ++ s) ≡ s
drop-append [] s = refl
drop-append (c ∷ p) s = drop-append p s

-- A key of the history is the key of its range, and then its height.
composite-partial :
    (codec : VarintCodec) (ns key : GoString) (b t : ℕ)
    → construct_composite_history_key codec ns key b t
      ≡ construct_partial_composite_history_key ns key false ++ (codec.encode b ++ codec.encode t)
unfolding construct_composite_history_key construct_partial_composite_history_key
composite-partial codec ns key b t =
    let x = codec.encode b ++ codec.encode t in simp (append_assoc, append-nil) refl

-- The bytes behind the range of a key, of one of its records.
split-construct :
    (codec : VarintCodec) (ns key : GoString) (b t : ℕ)
    → (before : GoString) × (split_composite_history_key
          (construct_composite_history_key codec ns key b t)
          (construct_partial_composite_history_key ns key false)
        ≡ ok (before, codec.encode b ++ codec.encode t))
unfolding split_composite_history_key
split-construct codec ns key b t =
    let p = construct_partial_composite_history_key ns key false in
    let x = codec.encode b ++ codec.encode t in
    (
      [],
      ground (
        arith,
        composite-partial codec ns key b t,
        index-prefix (p ++ x) p (has_prefix-append p x),
        drop-append p x,
      ),
    )

-- The write of a key that a transaction's sets have first: in the first set of the namespace the
-- first write of the key.
pub record IsFirstWrite (ns key : GoString) (set : TxRwSet) (w : KvWrite) : Type 0 where
  pub sets_before : List NsRwSet
  pub sets_after : List NsRwSet
  pub of_ns : NsRwSet
  pub sets_split : set.ns_rw_sets ≡ sets_before ++ of_ns ∷ sets_after
  pub of_ns_name : of_ns.name_space ≡ ns
  pub no_set_before : All (λ s. str_eq s.name_space ns ≡ false) sets_before
  pub writes_before : List KvWrite
  pub writes_after : List KvWrite
  pub writes_split : of_ns.kv_rw_set.writes ≡ writes_before ++ w ∷ writes_after
  pub key_name : w.key ≡ key
  pub no_write_before : All (λ v. str_eq v.key key ≡ false) writes_before

find_namespace-append :
    (ns : GoString) (before : List NsRwSet) (s : NsRwSet) (after : List NsRwSet)
    → s.name_space ≡ ns
    → All (λ t. str_eq t.name_space ns ≡ false) before
    → find_namespace ns (before ++ s ∷ after) ≡ some s
unfolding find_namespace
find_namespace-append ns [] s after e none_before = rw (e, str_eq_refl ns) refl
find_namespace-append ns (t ∷ before) s after e (other, none_before) =
    rw other (find_namespace-append ns before s after e none_before)

find_key_write-append :
    (key : GoString) (before : List KvWrite) (w : KvWrite) (after : List KvWrite)
    → w.key ≡ key
    → All (λ v. str_eq v.key key ≡ false) before
    → find_key_write key (before ++ w ∷ after) ≡ some w
unfolding find_key_write
find_key_write-append key [] w after e none_before = rw (e, str_eq_refl key) refl
find_key_write-append key (v ∷ before) w after e (other, none_before) =
    rw other (find_key_write-append key before w after e none_before)

-- The modification that a write is, in the transaction of a channel header.
abbrev pub as_modification : ChannelHeader → KvWrite → KeyModification
as_modification chdr w = record {
  tx_id = chdr.tx_id;
  value = w.value;
  timestamp = chdr.timestamp;
  is_delete = w.is_delete;
}

modification_of-IsFirstWrite :
    (ns key : GoString) (chdr : ChannelHeader) (set : TxRwSet) (w : KvWrite)
    → IsFirstWrite ns key set w
    → modification_of ns key chdr set ≡ ok (as_modification chdr w)
unfolding modification_of
modification_of-IsFirstWrite ns key chdr set w first =
    let in_set : find_namespace ns set.ns_rw_sets ≡ some first.of_ns = rw first.sets_split (
      find_namespace-append ns first.sets_before first.of_ns first.sets_after first.of_ns_name
        first.no_set_before) in
    let in_writes : find_key_write key first.of_ns.kv_rw_set.writes ≡ some w =
      rw first.writes_split (
        find_key_write-append key first.writes_before w first.writes_after first.key_name
          first.no_write_before) in
    rw (in_set, in_writes, modification_of) refl

module _ (codec : VarintCodec) (level : LevelDb) (proto : ProtoCodec) (decode : TxDecoders) where
  height_in-construct :
      (ns key : GoString) (b t : ℕ)
      → b < two_64
      → t < two_64
      → height_in codec level proto decode
          (construct_composite_history_key codec ns key b t)
          (construct_partial_composite_history_key ns key false)
        ≡ ok (b, t)
  unfolding height_in
  height_in-construct ns key b t low low' = ground (
    arith,
    (split-construct codec ns key b t).1,
    codec.decode-encode b (codec.encode t) low,
    slice_from-append (codec.encode b) (codec.encode t),
    codec.decode-encode t [] low',
    append-nil (codec.encode t),
  )

  -- The scanner of a key's history reads the range from the namespace, a zero, the key and a zero up
  -- to the same with the byte 255 behind it. At a record that the history database has made for the
  -- key, `Next` returns the first write of the key, in the first set of the namespace, of the
  -- transaction at the record's height: its value and whether it is a deletion, with the id and the
  -- time of the transaction's channel header; and it moves on. The numbers are uint64, and the block
  -- store has a transaction there that decodes.
  pub history_next-construct :
      (ns key value : GoString) (b t : ℕ) (s : level.Store) (it it' : level.Iter)
      (scanner : HistoryScanner level) (env results : GoString) (payload : GoString × GoString)
      (chdr : ChannelHeader) (set : TxRwSet) (w : KvWrite)
      → b < two_64
      → t < two_64
      → get_history_for_key level true ns key s ≡ ok scanner
      → level.next_entry it ≡ (some (construct_composite_history_key codec ns key b t, value), it')
      → decode.retrieve_tx b t ≡ ok env
      → decode.payload_of env ≡ ok payload
      → decode.action_results payload.1 ≡ ok results
      → decode.channel_header payload.0 ≡ ok chdr
      → from_proto_bytes proto results ≡ ok set
      → IsFirstWrite ns key set w
      → (scanner.db_itr
          ≡ level.get_iterator (ns ++ 0 ∷ (key ++ 0 ∷ [])) (ns ++ 0 ∷ (key ++ 0 ∷ 255 ∷ [])) s)
        × (history_next codec level proto decode (record scanner { db_itr = it }) ≡ (
          ok (
              some (record {
                tx_id = chdr.tx_id;
                value = w.value;
                timestamp = chdr.timestamp;
                is_delete = w.is_delete;
              })),
          record scanner { db_itr = it' },
        ))
  unfolding history_next get_history_for_key modification_at get_key_modification_from_tran
      construct_partial_composite_history_key
  history_next-construct ns key value b t s it it' scanner env results payload chdr set w low low'
        start entry tx read_payload read_results read_chdr read_set first =
      let modified : get_key_modification_from_tran proto decode env ns key
          ≡ ok (as_modification chdr w) =
        ground (
          arith,
          read_payload,
          read_results,
          read_chdr,
          read_set,
          modification_of-IsFirstWrite ns key chdr set w first,
        ) in
      subst
        (λ c.
          (c.db_itr
            ≡ level.get_iterator (ns ++ 0 ∷ (key ++ 0 ∷ [])) (ns ++ 0 ∷ (key ++ 0 ∷ 255 ∷ [])) s)
          × (history_next codec level proto decode (record c { db_itr = it })
              ≡ (ok (some (as_modification chdr w)), record c { db_itr = it' })))
        (ok-inj start)
        (refl, ground (arith, entry, height_in-construct ns key b t low low', tx, modified))
