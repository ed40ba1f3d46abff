-- ===== src/Rlist/Tree.antt =====
-- Reading a list of any number of levels: `GetIdByIndex` of rlist.go on loaded buckets.
use eloan_peer.Prelude.{
  ℕ, zero, suc, ◌-◌, ◌≤◌, ◌<◌, ◌≡◌, refl, inl, inr, true, Bool-cases, List, [], ◌∷◌, ◌++◌, ok,
  arith, length, length-append, get_elem?, ltb,
}
use eloan_peer.Prelude.GoString.{GoString}
use eloan_peer.StateDb.{RListRef}
use eloan_peer.Strconv.{sign_bit}
use eloan_peer.VersionedDb.{VersionedDb}
use eloan_peer.Rlist.{RList, ListCodec, Store, M, pure, deref, is_negative, sub_int}
use eloan_peer.Rlist.Load.{load}
use eloan_peer.Rlist.Lookup.{at_bucket, elem_at, get_id_body, get_id_by_index}
use eloan_peer.Rlist.Small.Ids.{int_lt_small, id_at, is_some-get_elem?}

-- The bucket `p` and those below it, at most `n` levels of them, are loaded, have the ids `ids` in
-- their order, and know how many they are.
mutual
  pub data IsTree (s : Store) : ℕ → RListRef → List GoString → Type 0 where
    leaf :
        {n : ℕ} {p : RListRef} {ids : List GoString} (this : RList)
        → deref p s ≡ ok (this, s)
        → this.is_load ≡ true
        → this.bucket_list ≡ []
        → this.id_list ≡ ids
        → this.size ≡ length ids
        → IsTree s n p ids
    branch :
        {n : ℕ} {p : RListRef} {ids : List GoString} (this : RList) (v : RListRef)
        (vs : List RListRef)
        → deref p s ≡ ok (this, s)
        → this.is_load ≡ true
        → this.bucket_list ≡ v ∷ vs
        → IsForest s n (v ∷ vs) ids
        → this.size ≡ length ids
        → IsTree s (suc n) p ids

  pub data IsForest (s : Store) : ℕ → List RListRef → List GoString → Type 0 where
    nil : {n : ℕ} → IsForest s n [] []
    cons :
        {n : ℕ} {v : RListRef} {vs : List RListRef} {xs ys zs : List GoString} (this : RList)
        → deref v s ≡ ok (this, s)
        → this.size ≡ length xs
        → IsTree s n v xs
        → IsForest s n vs ys
        → zs ≡ xs ++ ys
        → IsForest s n (v ∷ vs) zs

get_elem?-append_left {ℓ} :
    {A : Type ℓ} (xs ys : List A) (i : ℕ) → i < length xs → get_elem? (xs ++ ys) i ≡ get_elem? xs i
get_elem?-append_left [] ys i h = absurd (omega arith)
get_elem?-append_left (x ∷ xs) ys zero h = refl
get_elem?-append_left (x ∷ xs) ys (suc i) h = get_elem?-append_left xs ys i (omega arith)

get_elem?-append_right {ℓ} :
    {A : Type ℓ} (xs ys : List A) (i : ℕ)
    → length xs ≤ i
    → get_elem? (xs ++ ys) i ≡ get_elem? ys (i - length xs)
get_elem?-append_right [] ys i h = ground arith
get_elem?-append_right (x ∷ xs) ys zero h = absurd (omega arith)
get_elem?-append_right (x ∷ xs) ys (suc i) h = ground (arith, get_elem?-append_right xs ys i)

sub_int_small : (i n : ℕ) → n ≤ i → i < sign_bit → sub_int i n ≡ i - n
unfolding sub_int
sub_int_small i n h k = omega arith

module _ (s : Store) where
  -- The loop over the buckets reaches the bucket of an index that is in range.
  at_bucket_lem :
      {n : ℕ} {vs : List RListRef} {zs : List GoString} (go : RListRef → ℕ → M GoString)
      → ((v : RListRef) (xs : List GoString) (i : ℕ)
          → IsTree s n v xs
          → length xs < sign_bit
          → go v i s ≡ ok (id_at i xs, s))
      → (index : ℕ) → IsForest s n vs zs
      → index < length zs
      → length zs < sign_bit
      → at_bucket go (pure []) vs index s ≡ ok (id_at index zs, s)
  unfolding at_bucket id_at
  at_bucket_lem go each index nil h small = absurd (omega arith)
  at_bucket_lem go each index (cons {v} {vs} {xs} {ys} {zs} this at size tree forest e) h small =
      elim (Bool-cases (ltb index (length xs))) [
        | inl near ↦ ground (
          arith,
          at,
          size,
          e,
          length-append xs ys,
          int_lt_small index (length xs),
          each v xs index tree,
          get_elem?-append_left xs ys index,
        )
        | inr far ↦ ground (
          arith,
          at,
          size,
          e,
          length-append xs ys,
          int_lt_small index (length xs),
          sub_int_small index (length xs),
          get_elem?-append_right xs ys index,
          at_bucket_lem go each (index - length xs) forest,
        )
      ]

  module _ (db : VersionedDb) (codec : ListCodec) where
    load_loaded :
        (fuel : ℕ) (p : RListRef) (this : RList)
        → deref p s ≡ ok (this, s)
        → this.is_load ≡ true
        → load db codec (suc fuel) p s ≡ ok (tt, s)
    unfolding load
    load_loaded fuel p this at loaded = ground arith

    module _ (go : RListRef → ℕ → M GoString) (fuel : ℕ) (p : RListRef) (ids : List GoString)
        (this : RList) (at : deref p s ≡ ok (this, s)) (loaded : this.is_load ≡ true)
        (size : this.size ≡ length ids) (small : length ids < sign_bit) (index : ℕ) where
      leaf_body :
          this.bucket_list ≡ []
          → this.id_list ≡ ids
          → get_id_body db codec go (suc fuel) p index s ≡ ok (id_at index ids, s)
      unfolding get_id_body elem_at id_at is_negative
      leaf_body flat list = ground (
        arith,
        load_loaded fuel p this at loaded,
        int_lt_small index (length ids),
        is_some-get_elem? ids index,
      )

      branch_body :
          (v : RListRef) (vs : List RListRef)
          → this.bucket_list ≡ v ∷ vs
          → (index < length ids → at_bucket go (pure []) (v ∷ vs) index s ≡ ok (id_at index ids, s))
          → get_id_body db codec go (suc fuel) p index s ≡ ok (id_at index ids, s)
      unfolding get_id_body id_at is_negative
      branch_body v vs below inside = ground (
        arith,
        load_loaded fuel p this at loaded,
        int_lt_small index (length ids),
        is_some-get_elem? ids index,
        inside,
      )

    -- The id at an index of a list whose buckets are loaded, empty if the index is out of range;
    -- the store stays as it is. The fuel is above the number of levels.
    pub get_id_by_index-IsTree :
        (fuel : ℕ) {n : ℕ} {p : RListRef} {ids : List GoString} (index : ℕ)
        → IsTree s n p ids
        → n < fuel
        → length ids < sign_bit
        → get_id_by_index db codec (suc fuel) p index s ≡ ok (id_at index ids, s)
    unfolding get_id_by_index
    get_id_by_index-IsTree zero index tree h small = absurd (omega arith)
    get_id_by_index-IsTree (suc fuel) index (leaf this at loaded flat list size) h small =
        leaf_body (get_id_by_index db codec (suc fuel)) fuel _ _ this at loaded size small index
          flat list
    get_id_by_index-IsTree (suc fuel) index (branch this v vs at loaded below forest size) h small =
        branch_body (get_id_by_index db codec (suc fuel)) fuel _ _ this at loaded size small index v
          vs below
          (λ inside.
            at_bucket_lem (get_id_by_index db codec (suc fuel))
              (λ w xs i t k. get_id_by_index-IsTree fuel i t (omega arith) k) index forest inside
              small)
