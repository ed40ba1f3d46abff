-- ===== src/Validator/Moves.antt =====
-- `moveCalsToUpdate` of state_based_validator.go: at the end of a block the computed values and the
-- lists become writes.
pub mod Sums
pub mod Whole
use eloan_peer.Prelude.{
  ℕ, ◌+◌, Bool, true, false, Option, none, some, List, [], ◌∷◌, Result, ok, err, ◌>>=◌, is_some,
  if◌then◌else◌,
}
use eloan_peer.Prelude.GoString.{GoString}
use eloan_peer.Prelude.Assoc.{Assoc, keys}
use eloan_peer.Version.{Height}
use eloan_peer.StateDb.{
  UpdateBatch, VersionedValue, RListRef, lookup2, insert2, ns_or_new, get_or_create_ns_updates,
  get_or_create_ns_cals, get_or_create_ns_r_lists, get_caled_namespaces, get_r_lists_namespaces,
  get_update_size,
}
use eloan_peer.VersionedDb.{VersionedDb, or_nil}
use eloan_peer.RLists.{RLists}
use eloan_peer.Validator.Computed.{Calc, erase2}

-- A computed value is moved unless the block has a plain write of the key; it is dropped then.
unfoldable pub move_cal : GoString → GoString → UpdateBatch → UpdateBatch
move_cal ns k batch = elim (lookup2 ns k batch.cals) [
  | none ↦ batch
  | some vv ↦
      if is_some (lookup2 ns k batch.updates)
      then record batch { cals = erase2 ns k batch.cals }
      else record batch {
        updates = insert2 ns k vv batch.updates;
        cal_num = batch.cal_num + 1;
        cals = erase2 ns k batch.cals;
      }
]

unfoldable pub move_keys : GoString → List GoString → UpdateBatch → UpdateBatch
unfolding move_cal
move_keys ns [] batch = batch
move_keys ns (k ∷ ks) batch = move_keys ns ks (move_cal ns k batch)

unfoldable pub move_ns_cals : GoString → UpdateBatch → UpdateBatch
unfolding move_keys
move_ns_cals ns batch =
    let created = get_or_create_ns_cals ns (get_or_create_ns_updates ns batch) in
    move_keys ns (keys (ns_or_new ns created.cals)) created

unfoldable pub move_cals : List GoString → UpdateBatch → UpdateBatch
unfolding move_ns_cals
move_cals [] batch = batch
move_cals (ns ∷ l) batch = move_cals l (move_ns_cals ns batch)

module _ (db : VersionedDb) (lists : RLists) where
  -- The writes of one list, at the version of the last save point.
  pub put_stubs :
      GoString → Option Height → List (GoString × Option GoString) → UpdateBatch → UpdateBatch
  put_stubs ns vh [] batch = batch
  put_stubs ns vh ((j, value) ∷ l) batch = put_stubs ns vh l (record batch {
    updates = insert2 ns j (record { value = value; version = vh }) batch.updates;
    r_list_num = batch.r_list_num + 1;
  })

  pub move_r_list : GoString → Option Height → RListRef → Calc lists → Result (Calc lists)
  unfolding put_stubs
  move_r_list ns vh r s = do
    store ← lists.save_state r s.store
    let p = lists.take_put_stub r store
    ok (record s { store = p.1; updates = put_stubs ns vh p.0 s.updates })

  pub move_r_list_keys : GoString → Option Height → List GoString → Calc lists → Result (Calc lists)
  unfolding move_r_list
  move_r_list_keys ns vh [] s = ok s
  move_r_list_keys ns vh (k ∷ ks) s = elim (lookup2 ns k s.updates.r_lists) [
    | none ↦ move_r_list_keys ns vh ks s
    | some r ↦ (do
      s' ← move_r_list ns vh r s
      move_r_list_keys ns vh ks
          (record s' { updates = record s'.updates { r_lists = erase2 ns k s'.updates.r_lists } }))
  ]

  unfoldable pub move_r_lists : List GoString → Calc lists → Result (Calc lists)
  unfolding move_r_list_keys or_nil
  move_r_lists [] s = ok s
  move_r_lists (ns ∷ l) s = do
    vh ← or_nil db.get_latest_save_point
    let created = get_or_create_ns_r_lists ns (get_or_create_ns_updates ns s.updates)
    s' ←
        move_r_list_keys ns vh (keys (ns_or_new ns created.r_lists))
          (record s { updates = created })
    move_r_lists l s'

  unfoldable pub move_cals_to_update : Calc lists → Result (Calc lists)
  unfolding move_cals move_r_lists
  move_cals_to_update s = do
    let reset = record s.updates { cal_num = 0; r_list_num = 0 }
    let moved = move_cals (get_caled_namespaces s.updates) reset
    s' ← move_r_lists (get_r_lists_namespaces moved) (record s { updates = moved })
    ok (record s' { updates = record s'.updates { update_num = get_update_size s'.updates } })
