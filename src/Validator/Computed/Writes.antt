-- ===== src/Validator/Computed/Writes.antt =====
-- `calWriteSet` of state_based_validator.go: its loop over the writes, with the lists.
use eloan_peer.Prelude.{
  ℕ, ◌+◌, Option, none, some, List, [], ◌∷◌, Result, ok, ◌>>=◌, if◌then◌else◌, codes, drop,
}
use eloan_peer.Prelude.GoString.{GoString, has_prefix}
use eloan_peer.Version.{Height}
use eloan_peer.StateDb.{
  RListRef, lookup2, insert2, get_or_create_ns_updates, get_or_create_ns_cals,
  get_or_create_ns_r_lists,
}
use eloan_peer.VersionedDb.{VersionedDb, or_nil}
use eloan_peer.Rwset.{KvWrite}
use eloan_peer.Strings.{slice_from, slice_to, split, equal_fold}
use eloan_peer.Strconv.{parse_int}
use eloan_peer.RLists.{RLists}
use eloan_peer.Cache.{new_cache, get_item, set_item}
use eloan_peer.Validator.{cal_prefix, r_list_prefix}
use eloan_peer.Validator.Computed.{Calc, seconds, text_of, or_else, cal_write, count_writes}

-- `now n` is what the clock says when it is read for the n-th time.
module _ (db : VersionedDb) (lists : RLists) (now : ℕ → ℕ) where
  pending_r_list : GoString → GoString → RListRef → Calc lists → Calc lists
  pending_r_list ns name r s = record s {
    updates = record s.updates { r_lists = insert2 ns name r s.updates.r_lists };
  }

  -- The list object: the block's, the cached one, or a new one, which is cached.
  unfoldable pub r_list_of : GoString → GoString → Calc lists → Result (RListRef × Calc lists)
  unfolding pending_r_list
  r_list_of ns name s = elim (lookup2 ns name s.updates.r_lists) [
    | some r ↦ ok (r, s)
    | none ↦
        (let cache = or_else s.r_list_cache (new_cache (seconds 60) (seconds 3)) in
          elim (get_item (now s.clock) name cache) [
            | some r ↦ ok (
              r,
              pending_r_list ns name r
                  (record s { r_list_cache = some cache; clock = s.clock + 1 }),
            )
            | none ↦ (do
              p ← lists.new_r_list ns name s.store
              ok (
                p.0,
                pending_r_list ns name p.0 (record s {
                  store = p.1;
                  r_list_cache = some (set_item (now (s.clock + 1)) name p.0 (seconds 30) cache);
                  clock = s.clock + 2;
                }),
              ))
          ])
  ]

  -- `ADD`: an index and an id, or an id; a value with more commas is cut at the first.
  add_to_r_list : RListRef → GoString × List GoString → lists.Store → Result lists.Store
  add_to_r_list r (v, id ∷ []) store =
      let b = parse_int v in
      if b.failed then lists.add_id r id store else lists.add_index_id r b.value id store
  add_to_r_list r (v, []) store = lists.add_id r v store
  add_to_r_list r (v, id ∷ w ∷ ws) store = lists.add_id r v store

  unfoldable pub r_list_write :
      GoString → GoString → Option GoString → Calc lists → Result (Calc lists)
  unfolding r_list_of add_to_r_list
  r_list_write ns v_str value s = do
    method ← slice_to 3 v_str
    params ← slice_from 4 v_str
    p ← r_list_of ns (split b',' params).0 s
    added ←
        (if equal_fold method (codes "ADD")
          then add_to_r_list p.0 (split b',' (text_of value)) p.1.store
          else ok p.1.store)
    removed ←
        (if equal_fold method (codes "DEL")
          then lists.remove_id p.0 (text_of value) added
          else ok added)
    ok (record p.1 { store = removed })

  -- The key behind `__CAL_` is tested for `__RLIST_` as well.
  r_list_part : GoString → GoString → Option GoString → Calc lists → Result (Calc lists)
  unfolding r_list_write
  r_list_part ns v_str value s =
      if has_prefix v_str r_list_prefix then r_list_write ns (drop 8 v_str) value s else ok s

  unfoldable pub computed_write :
      GoString → Option Height → KvWrite → Calc lists → Result (Calc lists)
  unfolding cal_write r_list_part
  computed_write ns vh kv_write s =
      if has_prefix kv_write.key cal_prefix
      then (do
        updates ← cal_write db ns vh (drop 6 kv_write.key) kv_write.value s.updates
        r_list_part ns (drop 6 kv_write.key) kv_write.value (record s { updates = updates }))
      else r_list_part ns kv_write.key kv_write.value s

  unfoldable pub computed_writes :
      GoString → Option Height → List KvWrite → Calc lists → Result (Calc lists)
  unfolding computed_write
  computed_writes ns vh [] s = ok s
  computed_writes ns vh (kv_write ∷ writes) s = do
    s' ← computed_write ns vh kv_write s
    computed_writes ns vh writes s'

  -- It always returns true; the counts are written into the values of the set.
  unfoldable pub cal_write_set :
      GoString → List KvWrite → Calc lists → Result (List KvWrite × Calc lists)
  unfolding computed_writes count_writes or_nil
  cal_write_set ns kv_writes s = do
    vh ← or_nil db.get_latest_save_point
    let created =
        get_or_create_ns_r_lists ns
          (get_or_create_ns_cals ns (get_or_create_ns_updates ns s.updates))
    s' ← computed_writes ns vh kv_writes (record s { updates = created })
    p ← count_writes db ns vh kv_writes s'.updates
    ok (p.0, record s' { updates = p.1 })
