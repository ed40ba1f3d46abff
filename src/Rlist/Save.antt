-- ===== src/Rlist/Save.antt =====
-- The saving of a list: `getSaveData`, `SaveState` and `GetPutStub` of rlist.go, and the interface
-- of the lists that these methods fill.
use eloan_peer.Prelude.{
  ℕ, true, false, Option, none, some, List, [], ◌∷◌, Result, ok, err, get_elem?, set,
}
use eloan_peer.Prelude.GoString.{GoString}
use eloan_peer.Prelude.Assoc.{Assoc}
use eloan_peer.StateDb.{RListRef}
use eloan_peer.VersionedDb.{VersionedDb}
use eloan_peer.RLists.{RLists}
use eloan_peer.Rlist.{
  RList, BucketListData, RListData, ListCodec, Store, M, pure, ◌>>=◌, ◌>>◌, deref, modify,
}
use eloan_peer.Rlist.Load.{new_r_list}
use eloan_peer.Rlist.Insertion.{put_root}
use eloan_peer.Rlist.Removal.{add_index_id, add_id, remove_id}

unfoldable pub bucket_data : List RListRef → M (List BucketListData)
bucket_data [] = pure []
bucket_data (v ∷ vs) = do
  bucket ← deref v
  rest ← bucket_data vs
  pure (record { bucket_id = bucket.bucket_id; size = bucket.size } ∷ rest)

unfoldable pub parent_id : Option RListRef → M GoString
parent_id none = pure []
parent_id (some q) = do parent ← deref q; pure parent.bucket_id

unfoldable pub get_save_data : RListRef → M RListData
get_save_data p = do
  this ← deref p
  parent ← parent_id this.parent_list
  buckets ← bucket_data this.bucket_list
  pure (record {
    bucket_id = this.bucket_id;
    bucket_seq_no = this.bucket_seq_no;
    parent_bucket_id = parent;
    bucket_list_data = buckets;
    id_list = this.id_list;
    size = this.size;
  })

module _ (codec : ListCodec) where
  -- One round of the loop of `SaveState`.
  unfoldable pub save_bucket : RListRef → M (Unit {0})
  save_bucket v = do
    bucket ← deref v
    elim bucket.need_delete [
      | true ↦ put_root v bucket.bucket_id none
      | false ↦ elim bucket.need_save [
        | false ↦ pure tt
        | true ↦ (do
          rdata ← get_save_data v
          put_root v bucket.bucket_id (codec.marshal rdata)
          modify v λ (b : RList). record b { need_save = false })
      ]
    ]

  unfoldable pub save_buckets : Assoc RListRef → M (Unit {0})
  save_buckets [] = pure tt
  save_buckets ((id, v) ∷ m) = do save_bucket v; save_buckets m

  unfoldable pub save_state : RListRef → M (Unit {0})
  save_state p = do this ← deref p; root ← deref this.rootlist; save_buckets root.map_r_list

-- The writes of `GetPutStub`, and the store with the map emptied, which its caller does entry by
-- entry.
unfoldable pub take_put_stub : RListRef → Store → List (GoString × Option GoString) × Store
take_put_stub p s = elim (get_elem? s p) [
  | none ↦ ([], s)
  | some this ↦ (this.put_stub, set s p (record this { put_stub = [] }))
]

-- The result of a method that returns nothing.
abbrev pub store_of : Result (Unit {0} × Store) → Result Store
store_of (err e) = err e
store_of (ok (u, s)) = ok s

module _ (db : VersionedDb) (codec : ListCodec) (bucket_num fuel : ℕ) where
  -- The lists as the validator sees them.
  unfoldable pub r_lists : RLists
  r_lists = record {
    Store = Store;
    new_r_list = λ ns name s. new_r_list db codec fuel ns name s;
    add_id = λ r id s. store_of (add_id db codec bucket_num fuel r id s);
    add_index_id = λ r index id s. store_of (add_index_id db codec bucket_num fuel r index id s);
    remove_id = λ r id s. store_of (remove_id db codec bucket_num fuel r id s);
    save_state = λ r s. store_of (save_state codec r s);
    take_put_stub = take_put_stub;
  }
