-- ===== src/Rlist/Insertion.antt =====
-- The body of `AddIndexId` of rlist.go. Its own call and that of `removeIdx` are arguments.
use eloan_peer.Prelude.{
  ℕ, zero, suc, ◌*◌, ◌/◌, true, false, Option, none, some, List, [], ◌∷◌, ◌++◌, ltb, leb, length,
  take, drop, if◌then◌else◌,
}
use eloan_peer.Prelude.GoString.{GoString, str_eq}
use eloan_peer.Prelude.Assoc.{insert}
use eloan_peer.StateDb.{RListRef}
use eloan_peer.VersionedDb.{VersionedDb}
use eloan_peer.Rlist.{
  RList, ListCodec, M, pure, fault, ◌>>=◌, ◌>>◌, when, deref, modify, int_lt, is_negative,
  datab_key,
}
use eloan_peer.Rlist.Load.{load, new_bucket}
use eloan_peer.Rlist.Sizes.{add_size, set_size, set_need_save, index_of, index_or_zero, add_bucket}
use eloan_peer.Rlist.Lookup.{at_bucket, index_of_id}

-- `rootlist.putStub[key] = value`
unfoldable pub put_root : RListRef → GoString → Option GoString → M (Unit {0})
put_root p key value = do
  this ← deref p
  modify this.rootlist λ (root : RList). record root { put_stub = insert key value root.put_stub }

-- The ids of a new bucket are written down with it.
unfoldable pub put_ids : RListRef → GoString → GoString → List GoString → M (Unit {0})
put_ids p name bucket_id [] = pure tt
put_ids p name bucket_id (v ∷ vs) = do
  put_root p (datab_key name v) (some bucket_id)
  put_ids p name bucket_id vs

-- The ids with one inserted; a slice out of range panics.
unfoldable pub insert_id : ℕ → GoString → RList → M (List GoString)
insert_id index id this = elim (int_lt index this.size) [
  | false ↦ pure (this.id_list ++ id ∷ [])
  | true ↦ elim (ltb (length this.id_list) index) [
    | true ↦ fault
    | false ↦ pure (take index this.id_list ++ id ∷ drop index this.id_list)
  ]
]

-- The last of some buckets.
abbrev pub last_bucket : RListRef → List RListRef → RListRef
last_bucket v [] = v
last_bucket v (w ∷ ws) = last_bucket w ws

-- The tests of `AddIndexId` on its index.
unfoldable pub clamp : ℕ → ℕ → ℕ
clamp size index =
    let from_zero = if is_negative index then 0 else index in
    if int_lt size from_zero then size else from_zero

-- `BUCKET_NUM*15/10`; `BUCKET_NUM` is a variable of the package.
abbrev pub upper : ℕ → ℕ
upper bucket_num = bucket_num * 15 / 10

module _ (db : VersionedDb) (codec : ListCodec) (bucket_num : ℕ) where
  -- A leaf with too many ids gives those behind the first `BUCKET_NUM` to a new bucket.
  unfoldable pub split_leaf : ℕ → RListRef → RListRef → ℕ → GoString → List GoString → M (Unit {0})
  split_leaf fuel p parent index id idlist = do
    modify p λ (this : RList). record this {
      id_list = take bucket_num idlist;
      size = length (take bucket_num idlist);
      need_save = true;
    }
    this ← deref p
    when (ltb index bucket_num) (put_root p (datab_key this.r_list_name id) (some this.bucket_id))
    next ← new_bucket p this.r_list_name this.rootlist
    modify next λ (n : RList). record n {
      parent_list = some parent;
      id_list = drop bucket_num idlist;
      size = length (drop bucket_num idlist);
      need_save = true;
    }
    n ← deref next
    put_ids p n.r_list_name n.bucket_id n.id_list
    q ← deref parent
    cur ← index_or_zero q.bucket_list this.bucket_id
    add_bucket fuel parent (suc cur) next

  unfoldable pub add_to_leaf : ℕ → RListRef → ℕ → GoString → M (Unit {0})
  add_to_leaf fuel p index id = do
    this ← deref p
    idlist ← insert_id index id this
    modify p λ (t : RList). record t { id_list = idlist }
    add_size fuel p 1
    set_need_save fuel p
    put_root p (datab_key this.r_list_name id) (some this.bucket_id)
    elim this.parent_list [
      | none ↦ pure tt
      | some parent ↦
          when (leb (upper bucket_num) (length idlist)) (split_leaf fuel p parent index id idlist)
    ]

  -- The buckets that move get their new parent.
  unfoldable pub adopt : ℕ → RListRef → List RListRef → M (Unit {0})
  adopt fuel parent [] = pure tt
  adopt fuel parent (v ∷ vs) = do
    load db codec fuel v
    modify v λ (b : RList). record b { parent_list = some parent; need_save = true }
    adopt fuel parent vs

  -- A new bucket with some of the buckets of a list.
  unfoldable pub bucket_with : ℕ → RListRef → List RListRef → M RListRef
  bucket_with fuel p buckets = do
    this ← deref p
    next ← new_bucket p this.r_list_name this.rootlist
    modify next λ (n : RList). record n { is_load = true; bucket_list = buckets }
    adopt fuel next buckets
    set_size fuel next
    pure next

  unfoldable pub split_inner : ℕ → RListRef → RListRef → List RListRef → M (Unit {0})
  split_inner fuel p parent the_list = do
    this ← deref p
    q ← deref parent
    cur ← index_of q.bucket_list this.bucket_id
    next ← bucket_with fuel p (drop bucket_num the_list)
    modify p λ (t : RList). record t { bucket_list = take bucket_num the_list }
    set_size fuel p
    add_bucket fuel parent (elim cur [ none ↦ zero | some k ↦ suc k ]) next
    set_size fuel parent

  -- The root keeps two buckets, and the tree grows by a level.
  unfoldable pub split_root : ℕ → RListRef → List RListRef → M (Unit {0})
  split_root fuel p the_list = do
    first ← bucket_with fuel p (take bucket_num the_list)
    next ← bucket_with fuel p (drop bucket_num the_list)
    modify p λ (t : RList). record t { bucket_list = [] }
    add_bucket fuel p 0 first
    add_bucket fuel p 1 next
    set_size fuel p

  unfoldable pub split_branch : ℕ → RListRef → M (Unit {0})
  split_branch fuel p = do
    this ← deref p
    when (ltb (upper bucket_num) (length this.bucket_list)) (elim this.parent_list [
      | some parent ↦ split_inner fuel p parent this.bucket_list
      | none ↦ split_root fuel p this.bucket_list
    ])

  module _ (add : RListRef → ℕ → GoString → M (Unit {0}))
      (remove : RListRef → ℕ → ℕ → M (Unit {0})) where
    unfoldable pub add_to_branch :
        ℕ → RListRef → RListRef → List RListRef → ℕ → GoString → M (Unit {0})
    add_to_branch fuel p v vs index id = do
      this ← deref p
      elim (int_lt index this.size) [
        | false ↦ (do bucket ← deref (last_bucket v vs); add (last_bucket v vs) bucket.size id)
        | true ↦ at_bucket (λ w i. add w i id) (pure tt) (v ∷ vs) index
      ]
      split_branch fuel p

    -- At the root an id that is there already is removed first.
    unfoldable pub remove_existing : ℕ → RListRef → GoString → M (Unit {0})
    remove_existing fuel p id = do
      this ← deref p
      root ← deref this.rootlist
      when (str_eq this.bucket_id root.bucket_id) (do
        id_index ← index_of_id db codec fuel p id
        elim (is_negative id_index) [ true ↦ pure tt | false ↦ remove p id_index id_index ])

    unfoldable pub add_body : ℕ → RListRef → ℕ → GoString → M (Unit {0})
    add_body fuel p index id = do
      remove_existing fuel p id
      this ← deref p
      load db codec fuel p
      loaded ← deref p
      elim loaded.bucket_list [
        | v ∷ vs ↦ add_to_branch fuel p v vs (clamp this.size index) id
        | [] ↦ add_to_leaf fuel p (clamp this.size index) id
      ]
