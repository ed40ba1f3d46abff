-- ===== src/Rlist/Small/Remove.antt =====
-- The removal of an id from a list with one bucket.
use eloan_peer.Prelude.{ℕ, suc, ◌≡◌, true, none, List, ◌++◌, ok, take, drop, arith}
use eloan_peer.Prelude.GoString.{GoString}
use eloan_peer.Prelude.Assoc.{insert, member}
use eloan_peer.StateDb.{RListRef}
use eloan_peer.Strconv.{add_int64}
use eloan_peer.VersionedDb.{VersionedDb}
use eloan_peer.Rlist.{ListCodec, M, RList, modify, minus_one, datab_key, is_negative}
use eloan_peer.Rlist.Lookup.{at_bucket, elem_at}
use eloan_peer.Rlist.Removal.{
  parent_of_several, merge_if_small, delete_if_empty, remove_from_leaf, remove_from_branch,
  remove_body, remove_idx, add_index_id,
}
use eloan_peer.Rlist.Pair.{AreApart, deref_second, assign_second}
use eloan_peer.Rlist.Small.{Frame, Content, leaf_node, store_at, IsSized}
use eloan_peer.Rlist.Small.Ids.{
  position, without, position_bounded, get_elem?-position, take-position, int_lt_small,
  not_negative,
}
use eloan_peer.Rlist.Small.Steps.{
  deref_root, deref_leaf, add_size_leaf, set_need_save_leaf, put_root_leaf, load_root, load_leaf,
}

unfoldable pub removed : Frame → GoString → Content → Content
removed f id t = record t {
  ids = without id t.ids;
  leaf_size = add_int64 t.leaf_size minus_one;
  root_size = add_int64 t.root_size minus_one;
  put_stub = insert (datab_key f.name id) none t.put_stub;
  root_save = true;
  leaf_save = true;
}

module _ (f : Frame) (h : AreApart f.root f.leaf f.rest) (db : VersionedDb) (codec : ListCodec)
    (bucket_num : ℕ) where
  pub set_ids :
      (t : Content) (ids : List GoString)
      → modify f.leaf (λ (l : RList). record l { id_list = ids }) (store_at f t)
        ≡ ok (tt, store_at f (record t { ids = ids }))
  unfolding modify
  set_ids t ids = simp (deref_second, assign_second)

  several_leaf :
      (t : Content) → parent_of_several (leaf_node f t) (store_at f t) ≡ ok (none, store_at f t)
  unfolding parent_of_several
  several_leaf t = ground (arith, deref_root f h t)

  merge_root :
      (fuel : ℕ) (t : Content)
      → merge_if_small db codec bucket_num fuel f.root (store_at f t) ≡ ok (tt, store_at f t)
  unfolding merge_if_small parent_of_several
  merge_root fuel t = ground (arith, deref_root f h t)

  delete_root : (t : Content) → delete_if_empty f.root (store_at f t) ≡ ok (tt, store_at f t)
  unfolding delete_if_empty
  delete_root t = ground (arith, deref_root f h t)

  module _ (add : RListRef → ℕ → GoString → M (Unit {0})) (remove : RListRef → ℕ → ℕ → M (Unit {0}))
      (id : GoString) (t : Content) (present : member id t.ids ≡ true) where
    leaf_step :
        (fuel abs : ℕ)
        → remove_from_leaf db codec bucket_num add remove
            (suc (suc fuel))
            f.leaf
            (position id t.ids)
            abs
            (store_at f t)
          ≡ ok (tt, store_at f (removed f id t))
    unfolding remove_from_leaf elem_at removed
    leaf_step fuel abs = ground (
      arith,
      deref_leaf f h t,
      get_elem?-position id t.ids,
      add_size_leaf f h t fuel minus_one,
      set_need_save_leaf f h t1 fuel,
      put_root_leaf f h t2 (datab_key f.name id) none,
      set_ids t3 (take (position id t.ids) t.ids ++ drop (suc (position id t.ids)) t.ids),
      take-position id t.ids,
      deref_leaf f h (removed f id t),
      several_leaf (removed f id t),
    )
      where
        t1 : Content
        t1 = record t {
          leaf_size = add_int64 t.leaf_size minus_one;
          root_size = add_int64 t.root_size minus_one;
        }

        t2 : Content
        t2 = record t1 { leaf_save = true; root_save = true }

        t3 : Content
        t3 = record t2 { put_stub = insert (datab_key f.name id) none t.put_stub }

    module _ (sized : IsSized t) where
      leaf_body :
          (fuel abs : ℕ)
          → remove_body db codec bucket_num add remove
              (suc (suc fuel))
              f.leaf
              (position id t.ids)
              abs
              (store_at f t)
            ≡ ok (tt, store_at f (removed f id t))
      unfolding remove_body
      leaf_body fuel abs = ground (
        arith,
        deref_leaf f h t,
        position_bounded id t.ids,
        sized.leaf,
        sized.within,
        not_negative (position id t.ids),
        int_lt_small (position id t.ids) t.leaf_size,
        load_leaf f h t db codec (suc fuel),
        leaf_step fuel abs,
      )

      root_body :
          (fuel abs : ℕ)
          → remove f.leaf (position id t.ids) abs (store_at f t)
            ≡ ok (tt, store_at f (removed f id t))
          → remove_body db codec bucket_num add remove
              (suc (suc fuel))
              f.root
              (position id t.ids)
              abs
              (store_at f t)
            ≡ ok (tt, store_at f (removed f id t))
      unfolding remove_body remove_from_branch at_bucket
      root_body fuel abs e = ground (
        arith,
        deref_root f h t,
        position_bounded id t.ids,
        sized.leaf,
        sized.root,
        sized.within,
        not_negative (position id t.ids),
        int_lt_small (position id t.ids) t.leaf_size,
        int_lt_small t.root_size (position id t.ids),
        load_root f h t db codec (suc fuel),
        deref_leaf f h t,
        merge_root (suc (suc fuel)) (removed f id t),
        delete_root (removed f id t),
      )

  -- The removal of an id that is there, by its index.
  pub remove_idx-removed :
      (id : GoString) (t : Content)
      → member id t.ids ≡ true
      → IsSized t
      → (fuel abs : ℕ)
      → remove_idx db codec bucket_num
          (suc (suc (suc (suc fuel))))
          f.root
          (position id t.ids)
          abs
          (store_at f t)
        ≡ ok (tt, store_at f (removed f id t))
  unfolding remove_idx
  remove_idx-removed id t present sized fuel abs =
      root_body (add_index_id db codec bucket_num (suc (suc (suc fuel))))
        (remove_idx db codec bucket_num (suc (suc (suc fuel)))) id t present sized (suc fuel) abs
        (leaf_body (add_index_id db codec bucket_num (suc (suc fuel)))
          (remove_idx db codec bucket_num (suc (suc fuel))) id t present sized fuel abs)

  -- An index of -1 removes nothing.
  pub remove_idx_negative :
      (fuel abs : ℕ) (t : Content)
      → remove_idx db codec bucket_num (suc fuel) f.root minus_one abs (store_at f t)
        ≡ ok (tt, store_at f t)
  unfolding remove_idx remove_body is_negative
  remove_idx_negative fuel abs t = ground (arith, deref_root f h t)
