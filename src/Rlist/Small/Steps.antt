-- ===== src/Rlist/Small/Steps.antt =====
-- The steps of the methods on a list with one bucket.
use eloan_peer.Prelude.{ℕ, suc, ◌≡◌, refl, Bool, true, false, Option, none, some, ok, arith}
use eloan_peer.Prelude.GoString.{GoString, str_eq_refl}
use eloan_peer.Prelude.Assoc.{insert, lookup}
use eloan_peer.Strconv.{add_int64}
use eloan_peer.VersionedDb.{VersionedDb, or_nil}
use eloan_peer.Rlist.{ListCodec, M, Store, deref, modify, when, minus_one, datab_key}
use eloan_peer.Rlist.Load.{load, registered, read_state, stored}
use eloan_peer.Rlist.Sizes.{add_size, set_need_save}
use eloan_peer.Rlist.Lookup.{
  sizes_before, get_index, count_before, pending, bucket_of, index_in_bucket, index_of_id,
}
use eloan_peer.Rlist.Insertion.{put_root}
use eloan_peer.Rlist.Pair.{AreApart, deref_first, deref_second, assign_first, assign_second}
use eloan_peer.Rlist.Small.{Frame, leaf_id, Content, root_node, leaf_node, store_at}

ruleset pair_laws = (deref_first, deref_second, assign_first, assign_second)

-- A test that makes no difference.
pub when_same :
    (b : Bool) (m : M (Unit {0})) (s : Store) → m s ≡ ok (tt, s) → when b m s ≡ ok (tt, s)
when_same true m s e = e
when_same false m s e = refl

module _ (f : Frame) (h : AreApart f.root f.leaf f.rest) (t : Content) where
  pub deref_root : deref f.root (store_at f t) ≡ ok (root_node f t, store_at f t)
  deref_root = deref_first f.root f.leaf f.rest h (root_node f t) (leaf_node f t)

  pub deref_leaf : deref f.leaf (store_at f t) ≡ ok (leaf_node f t, store_at f t)
  deref_leaf = deref_second f.root f.leaf f.rest h (root_node f t) (leaf_node f t)

  pub add_size_leaf :
      (fuel num : ℕ)
      → add_size (suc (suc fuel)) f.leaf num (store_at f t)
        ≡ ok (
          tt,
          store_at f (record t {
            leaf_size = add_int64 t.leaf_size num;
            root_size = add_int64 t.root_size num;
          }),
        )
  unfolding add_size
  add_size_leaf fuel num = simp pair_laws

  pub set_need_save_leaf :
      (fuel : ℕ)
      → set_need_save (suc (suc fuel)) f.leaf (store_at f t)
        ≡ ok (tt, store_at f (record t { leaf_save = true; root_save = true }))
  unfolding set_need_save
  set_need_save_leaf fuel = simp pair_laws

  pub put_root_leaf :
      (key : GoString) (value : Option GoString)
      → put_root f.leaf key value (store_at f t)
        ≡ ok (tt, store_at f (record t { put_stub = insert key value t.put_stub }))
  unfolding put_root modify
  put_root_leaf key value = simp pair_laws

  pub get_index_leaf :
      (fuel : ℕ) → get_index (suc (suc fuel)) f.leaf (store_at f t) ≡ ok (0, store_at f t)
  unfolding get_index sizes_before
  get_index_leaf fuel = ground (arith, deref_root, deref_leaf, str_eq_refl (leaf_id f))

  module _ (db : VersionedDb) (codec : ListCodec) where
    pub load_root :
        (fuel : ℕ) → load db codec (suc fuel) f.root (store_at f t) ≡ ok (tt, store_at f t)
    unfolding load
    load_root fuel = simp pair_laws

    pub load_leaf :
        (fuel : ℕ) → load db codec (suc fuel) f.leaf (store_at f t) ≡ ok (tt, store_at f t)
    unfolding load
    load_leaf fuel = simp pair_laws

    module _ (id : GoString) where
      pub index_of_pending :
          (fuel : ℕ)
          → lookup (leaf_id f) f.buckets ≡ some f.leaf
          → pending (datab_key f.name id) t.put_stub ≡ some (leaf_id f)
          → index_of_id db codec (suc (suc fuel)) f.root id (store_at f t)
            ≡ ok (count_before id t.ids 0, store_at f t)
      unfolding index_of_id bucket_of index_in_bucket registered
      index_of_pending fuel known e = ground (
        arith,
        load_root (suc fuel),
        deref_root,
        load_leaf (suc fuel),
        get_index_leaf fuel,
        deref_leaf,
      )

      pub index_of_absent :
          (fuel : ℕ)
          → pending (datab_key f.name id) t.put_stub ≡ none
          → db.get_state f.ns (datab_key f.name id) ≡ ok none
          → index_of_id db codec (suc (suc fuel)) f.root id (store_at f t)
            ≡ ok (minus_one, store_at f t)
      unfolding index_of_id bucket_of read_state or_nil stored
      index_of_absent fuel e absent = ground (arith, load_root (suc fuel), deref_root)
