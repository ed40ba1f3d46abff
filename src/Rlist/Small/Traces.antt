-- ===== src/Rlist/Small/Traces.antt =====
-- Sequences of calls on a new list, against the plain list that they stand for.
use eloan_peer.Prelude.{
  ℕ, suc, ◌+◌, ◌≤◌, ◌<◌, ◌≡◌, refl, none, List, [], ◌∷◌, ◌++◌, ok, arith, length, length-append,
}
use eloan_peer.Prelude.GoString.{GoString}
use eloan_peer.StateDb.{RListRef}
use eloan_peer.Strconv.{sign_bit}
use eloan_peer.VersionedDb.{VersionedDb}
use eloan_peer.Rlist.{ListCodec, Store, M, pure, ◌>>=◌, ◌>>◌, datab_key, is_negative}
use eloan_peer.Rlist.Load.{root_key, new_r_list}
use eloan_peer.Rlist.Lookup.{at_bucket, elem_at, get_id_body, get_id_by_index}
use eloan_peer.Rlist.Insertion.{upper}
use eloan_peer.Rlist.Removal.{add_id, add_index_id, remove_id}
use eloan_peer.Rlist.Small.{Frame, Content, store_at, IsFrame, Holds}
use eloan_peer.Rlist.Small.Ids.{
  without, insert_nth, nearest, length-without-le, length-insert_nth, int_lt_small, id_at,
  is_some-get_elem?,
}
use eloan_peer.Rlist.Small.Steps.{deref_root, deref_leaf, load_root, load_leaf}
use eloan_peer.Rlist.Small.Refine.{Becomes, remove_id-Holds, add_id-Holds, add_index_id-Holds}
use eloan_peer.Rlist.Small.Fresh.{new_r_list-Holds}

-- The calls of the validator.
pub data Change : Type 0 where
  add : GoString → Change
  add_at : ℕ → GoString → Change
  remove : GoString → Change

-- What a call means for a plain list without repetitions.
unfoldable pub changed : Change → List GoString → List GoString
changed (add id) ids = without id ids ++ id ∷ []
changed (add_at index id) ids =
    insert_nth (nearest (length (without id ids)) index) id (without id ids)
changed (remove id) ids = without id ids

unfoldable pub all_changed : List Change → List GoString → List GoString
all_changed [] ids = ids
all_changed (c ∷ cs) ids = all_changed cs (changed c ids)

length-changed : (c : Change) (ids : List GoString) → length (changed c ids) ≤ suc (length ids)
unfolding changed
length-changed (add id) ids =
    omega (arith, length-append (without id ids) (id ∷ []), length-without-le id ids)
length-changed (add_at index id) ids = omega (
  arith,
  length-insert_nth (nearest (length (without id ids)) index) id (without id ids),
  length-without-le id ids,
)
length-changed (remove id) ids = omega (arith, length-without-le id ids)

module _ (db : VersionedDb) (codec : ListCodec) (bucket_num : ℕ) (fuel : ℕ) where
  unfoldable pub call : RListRef → Change → M (Unit {0})
  call r (add id) = add_id db codec bucket_num (suc (suc (suc (suc (suc fuel))))) r id
  call r (add_at index id) =
      add_index_id db codec bucket_num (suc (suc (suc (suc (suc fuel))))) r index id
  call r (remove id) = remove_id db codec bucket_num (suc (suc (suc (suc fuel)))) r id

  unfoldable pub calls : RListRef → List Change → M (Unit {0})
  calls r [] = pure tt
  calls r (c ∷ cs) = do call r c; calls r cs

  -- A new list, changed, and then read at an index.
  unfoldable pub session : GoString → GoString → List Change → ℕ → M GoString
  session ns name cs index = do
    r ← new_r_list db codec (suc fuel) ns name
    calls r cs
    get_id_by_index db codec (suc (suc (suc fuel))) r index

  module _ (f : Frame) (frame : IsFrame db f) (fits : upper bucket_num ≤ sign_bit) where
    call-Holds :
        (c : Change) (t : Content) (ids : List GoString)
        → Holds f t ids
        → suc (length ids) < upper bucket_num
        → Becomes f (call f.root c (store_at f t)) (changed c ids)
    unfolding call changed
    call-Holds (add id) t ids h room =
        add_id-Holds db codec bucket_num f frame t ids h id fits
          (omega (arith, length-without-le id ids)) fuel
    call-Holds (add_at index id) t ids h room =
        add_index_id-Holds db codec bucket_num f frame t ids h id fits
          (omega (arith, length-without-le id ids)) fuel index
    call-Holds (remove id) t ids h room =
        remove_id-Holds db codec bucket_num f frame t ids h id fuel

    calls-Holds :
        (cs : List Change) (t : Content) (ids : List GoString)
        → Holds f t ids
        → length cs + length ids < upper bucket_num
        → Becomes f (calls f.root cs (store_at f t)) (all_changed cs ids)
    unfolding calls all_changed
    calls-Holds [] t ids h room = (t, refl, h)
    calls-Holds (c ∷ cs) t ids h room =
        let (t1, e1, h1) = call-Holds c t ids h (omega arith) in
        let (t2, e2, h2) =
          calls-Holds cs t1 (changed c ids) h1 (omega (arith, length-changed c ids)) in
        (t2, ground (arith, e1, e2), h2)

    get_id_by_index_lem :
        (index : ℕ) (t : Content) (ids : List GoString)
        → Holds f t ids
        → get_id_by_index db codec (suc (suc (suc fuel))) f.root index (store_at f t)
          ≡ ok (id_at index ids, store_at f t)
    unfolding get_id_by_index get_id_body at_bucket elem_at id_at is_negative
    get_id_by_index_lem index t ids h = ground (
      arith,
      load_root f frame.places t db codec (suc fuel),
      deref_root f frame.places t,
      load_leaf f frame.places t db codec fuel,
      deref_leaf f frame.places t,
      int_lt_small index t.root_size,
      int_lt_small index t.leaf_size,
      h.sized.root,
      h.sized.leaf,
      h.sized.within,
      h.list,
      is_some-get_elem? t.ids index,
    )

  -- A new list of an empty state, after fewer calls than a bucket takes ids, has at each index what
  -- the plain list has there, and the calls do not fail.
  pub session-IsList :
      (ns name : GoString) (s : Store) (cs : List Change) (index : ℕ)
      → upper bucket_num ≤ sign_bit
      → db.get_state ns (root_key name) ≡ ok none
      → ((id : GoString) → db.get_state ns (datab_key name id) ≡ ok none)
      → length cs < upper bucket_num
      → (s' : Store) × (session ns name cs index s ≡ ok (id_at index (all_changed cs []), s'))
  unfolding session
  session-IsList ns name s cs index fits no_root no_ids room =
      let (f, t, e, frame, h) = new_r_list-Holds db codec ns name s no_root no_ids fuel in
      let (t', e', h') = calls-Holds f frame fits cs t [] h (omega arith) in
      (
        store_at f t',
        ground (arith, e, e', get_id_by_index_lem f frame fits index t' (all_changed cs []) h'),
      )
