-- ===== src/Rlist/Load.antt =====
-- The constructors of rlist.go and the loading of a bucket from the state.
use eloan_peer.Prelude.{
  ℕ, zero, suc, true, false, Option, none, some, List, [], ◌∷◌, ◌++◌, Result, ok, err, codes,
}
use eloan_peer.Prelude.GoString.{GoString}
use eloan_peer.Prelude.Assoc.{lookup, insert}
use eloan_peer.StateDb.{RListRef, VersionedValue}
use eloan_peer.VersionedDb.{VersionedDb, or_nil}
use eloan_peer.Strconv.{add_int64, format_int}
use eloan_peer.Rlist.{
  RList, BucketListData, RListData, ListCodec, M, pure, fault, ◌>>=◌, ◌>>◌, deref, assign, modify,
  alloc,
}

-- The fields that every constructor starts from.
abbrev pub empty_list : RList
empty_list = record {
  bucket_id = [];
  r_list_name = [];
  bucket_seq_no = 0;
  parent_list = none;
  bucket_list = [];
  id_list = [];
  size = 0;
  is_load = false;
  need_save = false;
  need_delete = false;
  ns = [];
  put_stub = [];
  rootlist = 0;
  map_r_list = [];
}

-- `rootlist.mapRList[id] = p`
unfoldable pub register : RListRef → GoString → RListRef → M (Unit {0})
register rootlist id p =
    modify rootlist λ (root : RList). record root { map_r_list = insert id p root.map_r_list }

abbrev pub bucket_key : GoString → ℕ → GoString
bucket_key name seqno = codes "__RLIST_" ++ (name ++ (codes "_BUCKET_" ++ format_int seqno))

abbrev pub root_key : GoString → GoString
root_key name = codes "__RLIST_" ++ (name ++ codes "_ROOT")

unfoldable pub new_bucket : RListRef → GoString → RListRef → M RListRef
new_bucket p name rootlist = do
  root ← deref rootlist
  let seqno = add_int64 root.bucket_seq_no 1
  assign rootlist (record root { bucket_seq_no = seqno })
  this ← deref p
  child ← alloc (record empty_list {
    bucket_id = bucket_key name seqno;
    r_list_name = name;
    bucket_seq_no = seqno;
    need_save = true;
    ns = this.ns;
    rootlist = rootlist;
  })
  register rootlist (bucket_key name seqno) child
  pure child

unfoldable pub new_r_list_by_bucket_id : RListRef → GoString → GoString → RListRef → M RListRef
new_r_list_by_bucket_id p name id rootlist = do
  this ← deref p
  rlist ←
      alloc (record empty_list {
        bucket_id = id;
        r_list_name = name;
        ns = this.ns;
        rootlist = rootlist;
      })
  register rootlist id rlist
  pure rlist

-- The list object of a bucket, as `mapRList` knows it, or a new one.
unfoldable pub registered : RListRef → GoString → M RListRef
registered p id = do
  this ← deref p
  root ← deref this.rootlist
  elim (lookup id root.map_r_list) [
    | some q ↦ pure q
    | none ↦ new_r_list_by_bucket_id p this.r_list_name id this.rootlist
  ]

-- The bytes of a value, where there are any.
unfoldable pub stored : Option VersionedValue → Option GoString
stored none = none
stored (some v) = elim v.value [
  | none ↦ none
  | some bytes ↦ elim bytes [ [] ↦ none | c ∷ s ↦ some (c ∷ s) ]
]

abbrev pub lift_result : {A : Type 0} → Result A → M A
lift_result (err e) s = err e
lift_result (ok a) s = ok (a, s)

-- One round of the loop over the buckets of a stored list.
unfoldable pub child_of : RListRef → RList → BucketListData → M RListRef
child_of p this v = alloc (record empty_list {
  bucket_id = v.bucket_id;
  r_list_name = this.r_list_name;
  parent_list = some p;
  size = v.size;
  ns = this.ns;
  rootlist = this.rootlist;
})

unfoldable pub children_of : RListRef → RList → List BucketListData → M (List RListRef)
children_of p this [] = pure []
children_of p this (v ∷ vs) = do q ← child_of p this v; qs ← children_of p this vs; pure (q ∷ qs)

module _ (db : VersionedDb) (codec : ListCodec) where
  -- `db.GetState`, without its error.
  unfoldable pub read_state : GoString → GoString → M (Option GoString)
  read_state ns key = do v ← lift_result (or_nil (db.get_state ns key)); pure (stored v)

  -- What `load` does with the stored list, `load_parent` being its recursive call.
  unfoldable pub fill : (RListRef → M (Unit {0})) → RListRef → RListData → M (Unit {0})
  fill load_parent p rdata = do
    modify p λ (this : RList). record this {
      bucket_id = rdata.bucket_id;
      bucket_seq_no = rdata.bucket_seq_no;
      size = rdata.size;
      id_list = rdata.id_list;
    }
    elim rdata.parent_bucket_id [
      | [] ↦ pure tt
      | c ∷ s ↦ (do
        parent ← registered p (c ∷ s)
        load_parent parent
        modify p λ (this : RList). record this { parent_list = some parent })
    ]
    this ← deref p
    bucketlist ← children_of p this rdata.bucket_list_data
    modify p λ (this : RList). record this {
      bucket_list = bucketlist;
      is_load = true;
      need_save = false;
    }
    register this.rootlist rdata.bucket_id p

  -- The fuel bounds the chain of parents.
  unfoldable pub load : ℕ → RListRef → M (Unit {0})
  load zero p = fault
  load (suc fuel) p = do
    this ← deref p
    elim this.is_load [
      | true ↦ pure tt
      | false ↦ (do
        root ← deref this.rootlist
        bytes ← read_state root.ns this.bucket_id
        elim bytes [
          | none ↦ modify p λ (this : RList). record this { is_load = true }
          | some b ↦ fill (load fuel) p (codec.unmarshal b)
        ])
    ]

  unfoldable pub new_r_list : ℕ → GoString → GoString → M RListRef
  new_r_list fuel ns name = do
    root ← alloc (record empty_list {
      bucket_id = root_key name;
      r_list_name = name;
      ns = ns;
      need_save = true;
    })
    modify root
        λ (this : RList). record this { rootlist = root; map_r_list = (root_key name, root) ∷ [] }
    load fuel root
    this ← deref root
    elim this.bucket_list [
      | q ∷ qs ↦ pure tt
      | [] ↦ (do
        child ← new_bucket root name root
        modify child λ (this : RList). record this { parent_list = some root; is_load = true }
        modify root λ (this : RList). record this { bucket_list = this.bucket_list ++ child ∷ [] })
    ]
    pure root
