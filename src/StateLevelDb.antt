-- ===== src/StateLevelDb.antt =====
-- core/ledger/kvledger/txmgmt/statedb/stateleveldb/stateleveldb.go: the state in a key-value store,
-- which is a library's.
pub mod Keys
pub mod Stores
use eloan_peer.Prelude.{
  ℕ, ◌==◌, Bool, Option, none, some, List, [], ◌∷◌, ◌++◌, Result, ok, err, panic, ◌>>=◌,
  if◌then◌else◌,
}
use eloan_peer.Prelude.GoString.{GoString}
use eloan_peer.Prelude.Assoc.{Assoc}
use eloan_peer.Version.{Height}
use eloan_peer.Version.Codec.{VarintCodec, to_bytes, new_height_from_bytes}
use eloan_peer.StateDb.{UpdateBatch, VersionedValue, NsUpdates, get_updated_namespaces, ns_or_new}
use eloan_peer.StateDb.Iterator.{Item}
use eloan_peer.StateDb.Value.{encode_value, decode_value}

-- What the state database calls of leveldbhelper: a missing key is nil.
pub data Write : Type 0 where
  put_entry : GoString → GoString → Write
  delete_entry : GoString → Write

pub record LevelDb : Type 1 where
  pub Store : Type 0
  pub get_entry : GoString → Store → Result (Option GoString)
  pub write_batch : List Write → Store → Result Store
  pub Iter : Type 0
  -- The entries from a start to an end, the end not included, with their values as bytes.
  pub get_iterator : GoString → GoString → Store → Iter
  pub next_entry : Iter → Option (GoString × GoString) × Iter

abbrev pub save_point_key : GoString
save_point_key = 0 ∷ []

unfoldable pub construct_composite_key : GoString → GoString → GoString
construct_composite_key ns key = ns ++ 0 ∷ key

-- `SplitN(key, 0, 2)` and its two parts; there is no second part where there is no zero byte.
unfoldable pub split_composite_key : GoString → Result (GoString × GoString)
split_composite_key [] = err panic
split_composite_key (c ∷ s) =
    let rest = split_composite_key s in
    if c == 0 then ok ([], s) else (rest >>= λ p. ok (c ∷ p.0, p.1))

-- `key[len(key)-1] = b`, of a key that is not empty.
set_last : ℕ → GoString → GoString
set_last b [] = []
set_last b (c ∷ []) = b ∷ []
set_last b (c ∷ d ∷ s) = c ∷ set_last b (d ∷ s)

abbrev pub last_key_indicator : ℕ
last_key_indicator = 1

module _ (codec : VarintCodec) (level : LevelDb) where
  value_of : Option GoString → Result (Option VersionedValue)
  value_of none = ok none
  value_of (some db_val) = do
    p ← decode_value codec db_val
    ok (some (record { value = some p.0; version = some p.1 }))

  unfoldable pub get_state : GoString → GoString → level.Store → Result (Option VersionedValue)
  unfolding construct_composite_key value_of
  get_state namespace key s = do
    db_val ← level.get_entry (construct_composite_key namespace key) s
    value_of db_val

  unfoldable pub get_state_multiple_keys :
      GoString → List GoString → level.Store → Result (List (Option VersionedValue))
  unfolding get_state
  get_state_multiple_keys namespace [] s = ok []
  get_state_multiple_keys namespace (key ∷ keys) s = do
    val ← get_state namespace key s
    vals ← get_state_multiple_keys namespace keys s
    ok (val ∷ vals)

  unfoldable pub write_of : GoString → GoString → VersionedValue → Result Write
  unfolding construct_composite_key
  write_of ns k vv = elim vv.value [
    | none ↦ ok (delete_entry (construct_composite_key ns k))
    | some value ↦ (do
      encoded ← encode_value codec (some value) vv.version
      ok (put_entry (construct_composite_key ns k) encoded))
  ]

  unfoldable pub ns_writes : GoString → NsUpdates → Result (List Write)
  unfolding write_of
  ns_writes ns [] = ok []
  ns_writes ns ((k, vv) ∷ m) = do w ← write_of ns k vv; ws ← ns_writes ns m; ok (w ∷ ws)

  unfoldable pub all_writes : List GoString → UpdateBatch → Result (List Write)
  unfolding ns_writes
  all_writes [] batch = ok []
  all_writes (ns ∷ l) batch = do
    ws ← ns_writes ns (ns_or_new ns batch.updates)
    rest ← all_writes l batch
    ok (ws ++ rest)

  unfoldable pub apply_updates : UpdateBatch → Height → level.Store → Result level.Store
  unfolding all_writes
  apply_updates batch height s = do
    ws ← all_writes (get_updated_namespaces batch) batch
    level.write_batch (ws ++ put_entry save_point_key (to_bytes codec height) ∷ []) s

  height_of : Option GoString → Result (Option Height)
  height_of none = ok none
  height_of (some version_bytes) = do p ← new_height_from_bytes codec version_bytes; ok (some p.0)

  unfoldable pub get_latest_save_point : level.Store → Result (Option Height)
  unfolding height_of
  get_latest_save_point s = do
    version_bytes ← level.get_entry save_point_key s
    height_of version_bytes

  pub record KvScanner : Type 0 where
    pub namespace : GoString
    pub db_itr : level.Iter

  -- An empty end key stands for the end of the namespace.
  unfoldable pub end_of : GoString → GoString → GoString
  unfolding construct_composite_key set_last
  end_of namespace [] = set_last last_key_indicator (construct_composite_key namespace [])
  end_of namespace (c ∷ s) = construct_composite_key namespace (c ∷ s)

  unfoldable pub get_state_range_scan_iterator :
      GoString → GoString → GoString → level.Store → KvScanner
  unfolding end_of construct_composite_key
  get_state_range_scan_iterator namespace start_key end_key s = record {
    namespace = namespace;
    db_itr =
        level.get_iterator (construct_composite_key namespace start_key) (end_of namespace end_key)
          s;
  }

  item_at : GoString → Option (GoString × GoString) → Item
  item_at namespace none = ok none
  item_at namespace (some (db_key, db_val)) = do
    k ← split_composite_key db_key
    p ← decode_value codec db_val
    ok (some (record { namespace = namespace; key = k.1; value = some p.0; version = some p.1 }))

  -- `Next` of kvScanner.
  unfoldable pub scanner_next : KvScanner → Item × KvScanner
  unfolding item_at split_composite_key
  scanner_next scanner =
      let p = level.next_entry scanner.db_itr in
      (item_at scanner.namespace p.0, record scanner { db_itr = p.1 })
