-- ===== src/Rlist/Removal.antt =====
-- The body of `removeIdx` of rlist.go, whose calls of itself and of `AddIndexId` are arguments, and
-- the two methods tied together.
use eloan_peer.Prelude.{
  ℕ, zero, suc, ◌*◌, ◌/◌, true, false, ◌&&◌, not, Option, none, some, List, [], ◌∷◌, ◌++◌, ◌==◌,
  ltb, length, take, drop,
}
use eloan_peer.Prelude.GoString.{GoString}
use eloan_peer.StateDb.{RListRef}
use eloan_peer.VersionedDb.{VersionedDb}
use eloan_peer.Strconv.{add_int64, negate}
use eloan_peer.Rlist.{
  RList, ListCodec, M, pure, fault, ◌>>=◌, ◌>>◌, when, deref, modify, int_lt, is_negative,
  minus_one, datab_key,
}
use eloan_peer.Rlist.Load.{load}
use eloan_peer.Rlist.Sizes.{add_size, set_need_save, index_or_zero, add_bucket, remove_bucket}
use eloan_peer.Rlist.Lookup.{at_bucket, elem_at, index_of_id}
use eloan_peer.Rlist.Insertion.{put_root, last_bucket, add_body}

-- `BUCKET_NUM*5/10`
abbrev pub lower : ℕ → ℕ
lower bucket_num = bucket_num * 5 / 10

-- A list with siblings: its parent, where that has more than one bucket.
unfoldable pub parent_of_several : RList → M (Option RListRef)
parent_of_several this = elim this.parent_list [
  | none ↦ pure none
  | some q ↦ (do
    parent ← deref q
    pure (elim (ltb 1 (length parent.bucket_list)) [ true ↦ some q | false ↦ none ]))
]

abbrev pub neighbour : ℕ → ℕ
neighbour zero = 1
neighbour (suc i) = i

unfoldable pub delete_if_empty : RListRef → M (Unit {0})
delete_if_empty p = do
  this ← deref p
  when (this.size == 0) (elim this.parent_list [
    | none ↦ pure tt
    | some parent ↦ (do
      q ← deref parent
      bucket_index ← index_or_zero q.bucket_list this.bucket_id
      remove_bucket parent bucket_index
      modify p λ (t : RList). record t { need_delete = true })
  ])

module _ (db : VersionedDb) (codec : ListCodec) (bucket_num : ℕ) where
  -- The buckets of a list move to its sibling: to the front of it, if the list was the first.
  unfoldable pub move_buckets : ℕ → RListRef → ℕ → ℕ → List RListRef → M (Unit {0})
  move_buckets fuel target bucket_index k [] = pure tt
  move_buckets fuel target bucket_index k (v ∷ vs) = do
    load db codec fuel v
    into ← deref target
    elim bucket_index [
      | zero ↦ add_bucket fuel target k v
      | suc i ↦ add_bucket fuel target (length into.bucket_list) v
    ]
    modify v λ (b : RList). record b { parent_list = some target }
    set_need_save fuel v
    move_buckets fuel target bucket_index (suc k) vs

  unfoldable pub merge_branch : ℕ → RListRef → RListRef → M (Unit {0})
  merge_branch fuel p parent = do
    this ← deref p
    q ← deref parent
    bucket_index ← index_or_zero q.bucket_list this.bucket_id
    target ← elem_at q.bucket_list (neighbour bucket_index)
    load db codec fuel target
    add_size fuel parent (negate this.size)
    shrunk ← deref p
    add_size fuel target shrunk.size
    move_buckets fuel target bucket_index 0 this.bucket_list
    remove_bucket parent bucket_index
    modify p λ (t : RList). record t { need_delete = true }

  unfoldable pub merge_if_small : ℕ → RListRef → M (Unit {0})
  merge_if_small fuel p = do
    this ← deref p
    when (ltb (length this.bucket_list) (lower bucket_num)) (do
      parent ← parent_of_several this
      elim parent [ none ↦ pure tt | some q ↦ merge_branch fuel p q ])

  module _ (add : RListRef → ℕ → GoString → M (Unit {0}))
      (remove : RListRef → ℕ → ℕ → M (Unit {0})) where
    -- The ids of a leaf that is given up are inserted again at the root.
    unfoldable pub add_again : RListRef → ℕ → List GoString → M (Unit {0})
    add_again rootlist index [] = pure tt
    add_again rootlist index (v ∷ vs) = do
      add rootlist index v
      add_again rootlist (add_int64 index 1) vs

    unfoldable pub give_up_leaf : ℕ → RListRef → RListRef → ℕ → M (Unit {0})
    give_up_leaf fuel p parent absolute_index = do
      this ← deref p
      add_size fuel p (negate (length this.id_list))
      q ← deref parent
      bucket_index ← index_or_zero q.bucket_list this.bucket_id
      remove_bucket parent bucket_index
      add_again this.rootlist absolute_index this.id_list

    unfoldable pub remove_from_leaf : ℕ → RListRef → ℕ → ℕ → M (Unit {0})
    remove_from_leaf fuel p index absolute_index = do
      this ← deref p
      id ← elem_at this.id_list index
      add_size fuel p minus_one
      set_need_save fuel p
      put_root p (datab_key this.r_list_name id) none
      modify p λ (t : RList). record t {
        id_list = take index this.id_list ++ drop (suc index) this.id_list;
      }
      left ← deref p
      when (ltb (length left.id_list) (lower bucket_num)) (do
        parent ← parent_of_several left
        elim parent [ none ↦ pure tt | some q ↦ give_up_leaf fuel p q absolute_index ])

    unfoldable pub remove_from_branch :
        ℕ → RListRef → RListRef → List RListRef → ℕ → ℕ → M (Unit {0})
    remove_from_branch fuel p v vs index absolute_index = do
      this ← deref p
      elim (int_lt this.size index) [
        | true ↦ remove (last_bucket v vs) index absolute_index
        | false ↦ at_bucket (λ w i. remove w i absolute_index) (pure tt) (v ∷ vs) index
      ]
      merge_if_small fuel p
      delete_if_empty p

    unfoldable pub remove_body : ℕ → RListRef → ℕ → ℕ → M (Unit {0})
    remove_body fuel p index absolute_index = do
      this ← deref p
      when (not (is_negative index) && int_lt index this.size) (do
        load db codec fuel p
        loaded ← deref p
        elim loaded.bucket_list [
          | v ∷ vs ↦ remove_from_branch fuel p v vs index absolute_index
          | [] ↦ remove_from_leaf fuel p index absolute_index
        ])

  unfoldable mutual
    pub add_index_id : ℕ → RListRef → ℕ → GoString → M (Unit {0})
    add_index_id zero p index id = fault
    add_index_id (suc fuel) p index id =
        add_body db codec bucket_num (add_index_id fuel) (remove_idx fuel) fuel p index id

    pub remove_idx : ℕ → RListRef → ℕ → ℕ → M (Unit {0})
    remove_idx zero p index absolute_index = fault
    remove_idx (suc fuel) p index absolute_index =
        remove_body (add_index_id fuel) (remove_idx fuel) fuel p index absolute_index

  unfoldable pub add_id : ℕ → RListRef → GoString → M (Unit {0})
  add_id fuel p id = do this ← deref p; add_index_id fuel p this.size id

  unfoldable pub remove_index : ℕ → RListRef → ℕ → M (Unit {0})
  remove_index fuel p index = remove_idx fuel p index index

  unfoldable pub remove_id : ℕ → RListRef → GoString → M (Unit {0})
  remove_id fuel p id = do index ← index_of_id db codec fuel p id; remove_index fuel p index
