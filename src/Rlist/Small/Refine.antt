-- ===== src/Rlist/Small/Refine.antt =====
-- What the methods of a list with one bucket do to its ids.
use eloan_peer.Prelude.{
  ℕ, suc, ◌≤◌, ◌<◌, ◌≡◌, refl, sym, ap, ◌∙◌, inl, inr, true, false, Bool-cases, Result, none, some,
  List, [], ◌∷◌, ◌++◌, ok, length, arith, codes,
}
use eloan_peer.Prelude.GoString.{GoString, str_eq, str_eq_iff, str_eq_refl}
use eloan_peer.Prelude.Assoc.{member, lookup-insert}
use eloan_peer.StateDb.{RListRef}
use eloan_peer.Strconv.{sign_bit}
use eloan_peer.VersionedDb.{VersionedDb}
use eloan_peer.Rlist.{ListCodec, M, Store, minus_one, datab_key, is_negative}
use eloan_peer.Rlist.Lookup.{pending, index_of_id}
use eloan_peer.Rlist.Insertion.{upper, remove_existing}
use eloan_peer.Rlist.Removal.{remove_idx, remove_index, remove_id, add_index_id, add_id}
use eloan_peer.Rlist.Small.{Frame, leaf_id, Content, store_at, IsFrame, Holds}
use eloan_peer.Rlist.Small.Ids.{
  position, position_bounded, without, insert_nth, length-insert_nth, Distinct-insert_nth,
  member-insert_nth, nearest, grown, member-without_self, nearest_end, length-without-le,
  append-insert_nth, without_absent, length-without, member-without, Distinct-without,
  count_before_lem, shrunk,
}
use eloan_peer.Rlist.Small.Steps.{deref_root, index_of_pending, index_of_absent}
use eloan_peer.Rlist.Small.Add.{inserted, add_body-inserted}
use eloan_peer.Rlist.Small.Remove.{removed, remove_idx-removed, remove_idx_negative}

pub str_eq-append : (s t u : GoString) → str_eq (s ++ t) (s ++ u) ≡ str_eq t u
unfolding str_eq
str_eq-append [] t u = refl
str_eq-append (a ∷ s) t u = ground (arith, str_eq-append s t u)

pub str_eq-datab_key :
    (name id j : GoString) → str_eq (datab_key name id) (datab_key name j) ≡ str_eq id j
str_eq-datab_key name id j = rw (
  str_eq-append (codes "__RLIST_") (name ++ (codes "_DATAB_" ++ id))
      (name ++ (codes "_DATAB_" ++ j)),
  str_eq-append name (codes "_DATAB_" ++ id) (codes "_DATAB_" ++ j),
  str_eq-append (codes "_DATAB_") id j,
)

-- The store after a call, which holds a list of ids.
abbrev pub Becomes : Frame → Result (Unit {0} × Store) → List GoString → Type 0
Becomes f r ids = (t : Content) × (r ≡ ok (tt, store_at f t)) × Holds f t ids

module _ (db : VersionedDb) (codec : ListCodec) (bucket_num : ℕ) (f : Frame) (frame : IsFrame db f)
    (t : Content) (ids : List GoString) (holds : Holds f t ids) (id : GoString) where
  pub removed-Holds : member id ids ≡ true → Holds f (removed f id t) (without id ids)
  unfolding removed pending
  removed-Holds present = record {
    list = ground (arith, holds.list);
    sized = record {
      leaf = shrunk id t.ids t.leaf_size present' holds.sized.leaf holds.sized.within;
      root = shrunk id t.ids t.root_size present' holds.sized.root holds.sized.within;
      within = omega (arith, length-without id t.ids present', holds.sized.within);
    };
    distinct = Distinct-without id ids holds.distinct;
    index = λ j. ground (
      arith,
      holds.index j,
      lookup-insert (datab_key f.name id) (datab_key f.name j) none t.put_stub,
      str_eq-datab_key f.name id j,
      member-without id j ids holds.distinct,
      str_eq_iff id j,
    );
  }
    where
      present' : member id t.ids ≡ true
      present' = rw holds.list present

  index_of_present :
      (fuel : ℕ)
      → member id ids ≡ true
      → index_of_id db codec (suc (suc fuel)) f.root id (store_at f t)
        ≡ ok (position id t.ids, store_at f t)
  index_of_present fuel present = ground (
    arith,
    count_before_lem id t.ids 0,
    holds.sized.within,
    holds.index id,
    index_of_pending f frame.places t db codec id fuel frame.known,
  )

  index_of_missing :
      (fuel : ℕ)
      → member id ids ≡ false
      → index_of_id db codec (suc (suc fuel)) f.root id (store_at f t)
        ≡ ok (minus_one, store_at f t)
  index_of_missing fuel missing =
      index_of_absent f frame.places t db codec id fuel (ground (arith, holds.index id))
        (frame.fresh id)

  -- The first step of `AddIndexId`.
  pub remove_existing-Holds :
      (add : RListRef → ℕ → GoString → M (Unit {0})) (fuel : ℕ)
      → Becomes f
          (remove_existing db codec bucket_num add
            (remove_idx db codec bucket_num (suc (suc (suc (suc fuel)))))
            (suc (suc (suc (suc fuel))))
            f.root
            id
            (store_at f t))
          (without id ids)
  unfolding remove_existing is_negative
  remove_existing-Holds add fuel = elim (Bool-cases (member id ids)) [
    | inl present ↦ (
      removed f id t,
      ground (
        arith,
        deref_root f frame.places t,
        str_eq_refl f.root_id,
        index_of_present (suc (suc fuel)) present,
        holds.sized.within,
        position_bounded id t.ids,
        holds.list,
        remove_idx-removed f frame.places db codec bucket_num id t (rw holds.list present)
            holds.sized fuel (position id t.ids),
      ),
      removed-Holds present,
    )
    | inr missing ↦ (
      t,
      ground (
        arith,
        deref_root f frame.places t,
        str_eq_refl f.root_id,
        index_of_missing (suc (suc fuel)) missing,
      ),
      rw (without_absent id ids missing) holds,
    )
  ]

  pub inserted-Holds :
      (n : ℕ)
      → member id ids ≡ false
      → suc (length ids) < sign_bit
      → Holds f (inserted f n id t) (insert_nth n id ids)
  unfolding inserted pending
  inserted-Holds n missing room = record {
    list = ground (arith, holds.list);
    sized = record {
      leaf = grown n id t.ids t.leaf_size holds.sized.leaf within;
      root = grown n id t.ids t.root_size holds.sized.root within;
      within = omega (arith, length-insert_nth n id t.ids, within);
    };
    distinct = Distinct-insert_nth n id ids missing holds.distinct;
    index = λ j. ground (
      arith,
      holds.index j,
      lookup-insert (datab_key f.name id) (datab_key f.name j) (some (leaf_id f)) t.put_stub,
      str_eq-datab_key f.name id j,
      member-insert_nth n id j ids,
      str_eq_iff id j,
    );
  }
    where
      within : suc (length t.ids) < sign_bit
      within = rw holds.list room

  pub remove_id-Holds :
      (fuel : ℕ)
      → Becomes f
          (remove_id db codec bucket_num (suc (suc (suc (suc fuel)))) f.root id (store_at f t))
          (without id ids)
  unfolding remove_id remove_index
  remove_id-Holds fuel = elim (Bool-cases (member id ids)) [
    | inl present ↦ (
      removed f id t,
      ground (
        arith,
        index_of_present (suc (suc fuel)) present,
        remove_idx-removed f frame.places db codec bucket_num id t (rw holds.list present)
            holds.sized fuel (position id t.ids),
      ),
      removed-Holds present,
    )
    | inr missing ↦ (
      t,
      ground (
        arith,
        index_of_missing (suc (suc fuel)) missing,
        remove_idx_negative f frame.places db codec bucket_num (suc (suc (suc fuel))) minus_one t,
      ),
      rw (without_absent id ids missing) holds,
    )
  ]

module _ (db : VersionedDb) (codec : ListCodec) (bucket_num : ℕ) (f : Frame) (frame : IsFrame db f)
    (t : Content) (ids : List GoString) (holds : Holds f t ids) (id : GoString)
    (fits : upper bucket_num ≤ sign_bit)
    (room : suc (length (without id ids)) < upper bucket_num) where
  pub add_index_id-Holds :
      (fuel index : ℕ)
      → Becomes f
          (add_index_id db codec bucket_num
            (suc (suc (suc (suc (suc fuel)))))
            f.root
            index
            id
            (store_at f t))
          (insert_nth (nearest (length (without id ids)) index) id (without id ids))
  add_index_id-Holds fuel index =
      let (t1, e, h) =
        remove_existing-Holds db codec bucket_num f frame t ids holds id
          (add_index_id db codec bucket_num (suc (suc (suc (suc fuel))))) fuel in
      let room' : suc (length t1.ids) < upper bucket_num = rw h.list room in
      (
        inserted f (nearest (length (without id ids)) index) id t1,
        rw (← h.list) (
            add_body-inserted db codec bucket_num f frame t t1 h.sized room' index id (suc fuel) e),
        inserted-Holds db codec bucket_num f frame t1 (without id ids) h id
            (nearest (length (without id ids)) index) (member-without_self id ids holds.distinct)
            (omega arith),
      )

  pub add_id-Holds :
      (fuel : ℕ)
      → Becomes f
          (add_id db codec bucket_num (suc (suc (suc (suc (suc fuel))))) f.root id (store_at f t))
          (without id ids ++ id ∷ [])
  unfolding add_id
  add_id-Holds fuel =
      let (t1, e, h) = add_index_id-Holds fuel t.root_size in
      (t1, ground (arith, deref_root f frame.places t, e), rw at_end h)
    where
      at_end :
          (without id ids ++ id ∷ [])
          ≡ insert_nth (nearest (length (without id ids)) t.root_size) id (without id ids)
      at_end =
          append-insert_nth id (without id ids)
          ∙ ap (λ n. insert_nth n id (without id ids))
              (sym (
                nearest_end (length (without id ids)) t.root_size
                  (omega (arith, length-without-le id ids, holds.sized.root, ap length holds.list))
                  (omega (arith, holds.sized.root, holds.sized.within))))
