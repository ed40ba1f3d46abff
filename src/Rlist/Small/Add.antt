-- ===== src/Rlist/Small/Add.antt =====
-- The insertion of an id that is not there into a list with one bucket.
use eloan_peer.Prelude.{ℕ, suc, ◌≤◌, ◌<◌, ◌≡◌, true, some, [], ok, length, arith}
use eloan_peer.Prelude.GoString.{GoString}
use eloan_peer.Prelude.Assoc.{insert}
use eloan_peer.StateDb.{RListRef}
use eloan_peer.Strconv.{add_int64}
use eloan_peer.VersionedDb.{VersionedDb}
use eloan_peer.Rlist.{ListCodec, M, datab_key}
use eloan_peer.Rlist.Lookup.{at_bucket}
use eloan_peer.Rlist.Insertion.{
  upper, insert_id, add_to_leaf, add_to_branch, split_branch, remove_existing, add_body,
}
use eloan_peer.Rlist.Removal.{add_index_id, remove_idx}
use eloan_peer.Rlist.Small.{Frame, leaf_id, Content, leaf_node, store_at, IsSized, IsFrame}
use eloan_peer.Rlist.Small.Ids.{
  insert_nth, take-insert_nth, append-insert_nth, length-insert_nth, int_lt_small, nearest,
  nearest-le, nearest_self, clamp_lem,
}
use eloan_peer.Rlist.Small.Steps.{
  deref_root, deref_leaf, add_size_leaf, set_need_save_leaf, put_root_leaf, load_root, load_leaf,
}
use eloan_peer.Rlist.Small.Remove.{set_ids}

unfoldable pub inserted : Frame → ℕ → GoString → Content → Content
inserted f n id t = record t {
  ids = insert_nth n id t.ids;
  leaf_size = add_int64 t.leaf_size 1;
  root_size = add_int64 t.root_size 1;
  put_stub = insert (datab_key f.name id) (some (leaf_id f)) t.put_stub;
  root_save = true;
  leaf_save = true;
}

module _ (db : VersionedDb) (codec : ListCodec) (bucket_num : ℕ) (f : Frame) (frame : IsFrame db f)
    (t : Content) (sized : IsSized t) (room : suc (length t.ids) < upper bucket_num) (n : ℕ)
    (inside : n ≤ length t.ids) (id : GoString) where
  insert_id_lem :
      insert_id n id (leaf_node f t) (store_at f t) ≡ ok (insert_nth n id t.ids, store_at f t)
  unfolding insert_id
  insert_id_lem = ground (
    arith,
    int_lt_small n t.leaf_size,
    sized.leaf,
    sized.within,
    take-insert_nth n id t.ids,
    append-insert_nth id t.ids,
  )

  leaf_step :
      (fuel : ℕ)
      → add_to_leaf db codec bucket_num (suc (suc fuel)) f.leaf n id (store_at f t)
        ≡ ok (tt, store_at f (inserted f n id t))
  unfolding add_to_leaf inserted
  leaf_step fuel = ground (
    arith,
    deref_leaf f frame.places t,
    insert_id_lem,
    set_ids f frame.places db codec bucket_num t (insert_nth n id t.ids),
    add_size_leaf f frame.places t1 fuel 1,
    set_need_save_leaf f frame.places t2 fuel,
    put_root_leaf f frame.places t3 (datab_key f.name id) (some (leaf_id f)),
    length-insert_nth n id t.ids,
  )
    where
      t1 : Content
      t1 = record t { ids = insert_nth n id t.ids }

      t2 : Content
      t2 = record t1 { leaf_size = add_int64 t.leaf_size 1; root_size = add_int64 t.root_size 1 }

      t3 : Content
      t3 = record t2 { leaf_save = true; root_save = true }

  module _ (add : RListRef → ℕ → GoString → M (Unit {0}))
      (remove : RListRef → ℕ → ℕ → M (Unit {0})) where
    existing_leaf :
        (fuel : ℕ)
        → remove_existing db codec bucket_num add remove fuel f.leaf id (store_at f t)
          ≡ ok (tt, store_at f t)
    unfolding remove_existing
    existing_leaf fuel =
        ground (arith, deref_leaf f frame.places t, deref_root f frame.places t, frame.names)

    leaf_body :
        (fuel : ℕ)
        → add_body db codec bucket_num add remove (suc (suc fuel)) f.leaf n id (store_at f t)
          ≡ ok (tt, store_at f (inserted f n id t))
    unfolding add_body
    leaf_body fuel = ground (
      arith,
      existing_leaf (suc (suc fuel)),
      deref_leaf f frame.places t,
      load_leaf f frame.places t db codec (suc fuel),
      clamp_lem t.leaf_size n,
      nearest_self t.leaf_size n,
      sized.leaf,
      sized.within,
      leaf_step fuel,
    )

    split_root_small :
        (fuel : ℕ) (t' : Content)
        → split_branch db codec bucket_num fuel f.root (store_at f t') ≡ ok (tt, store_at f t')
    unfolding split_branch
    split_root_small fuel t' = ground (arith, deref_root f frame.places t')

    root_step :
        (fuel : ℕ)
        → add f.leaf n id (store_at f t) ≡ ok (tt, store_at f (inserted f n id t))
        → add_to_branch db codec bucket_num add remove fuel f.root f.leaf [] n id (store_at f t)
          ≡ ok (tt, store_at f (inserted f n id t))
    unfolding add_to_branch at_bucket
    root_step fuel e = ground (
      arith,
      deref_root f frame.places t,
      deref_leaf f frame.places t,
      int_lt_small n t.root_size,
      int_lt_small n t.leaf_size,
      sized.leaf,
      sized.root,
      sized.within,
      split_root_small fuel (inserted f n id t),
    )

-- The insertion itself, once the id is not in the list.
module _ (db : VersionedDb) (codec : ListCodec) (bucket_num : ℕ) (f : Frame) (frame : IsFrame db f)
    (s0 : Content) (t : Content) (sized : IsSized t) (room : suc (length t.ids) < upper bucket_num)
    (index : ℕ) (id : GoString) where
  pub add_body-inserted :
      (fuel : ℕ)
      → remove_existing db codec bucket_num
          (add_index_id db codec bucket_num (suc (suc (suc fuel))))
          (remove_idx db codec bucket_num (suc (suc (suc fuel))))
          (suc (suc (suc fuel)))
          f.root
          id
          (store_at f s0)
        ≡ ok (tt, store_at f t)
      → add_index_id db codec bucket_num
          (suc (suc (suc (suc fuel))))
          f.root
          index
          id
          (store_at f s0)
        ≡ ok (tt, store_at f (inserted f (nearest (length t.ids) index) id t))
  unfolding add_index_id add_body
  add_body-inserted fuel e = ground (
    arith,
    deref_root f frame.places t,
    load_root f frame.places t db codec (suc (suc fuel)),
    clamp_lem t.root_size index,
    sized.root,
    sized.within,
    root_step db codec bucket_num f frame t sized room (nearest (length t.ids) index)
        (nearest-le (length t.ids) index) id
        (add_index_id db codec bucket_num (suc (suc (suc fuel))))
        (remove_idx db codec bucket_num (suc (suc (suc fuel)))) (suc (suc (suc fuel)))
        (leaf_body db codec bucket_num f frame t sized room (nearest (length t.ids) index)
          (nearest-le (length t.ids) index) id (add_index_id db codec bucket_num (suc (suc fuel)))
          (remove_idx db codec bucket_num (suc (suc fuel))) fuel),
  )
