-- ===== src/Rlist/Small.antt =====
-- Lists whose ids stand in one bucket under the root.
pub mod Steps
pub mod Ids
pub mod Remove
pub mod Add
pub mod Refine
pub mod Fresh
pub mod Traces
use eloan_peer.Prelude.{
  ℕ, ◌<◌, ◌≡◌, Bool, true, false, Option, none, some, List, [], ◌∷◌, ok, length, if◌then◌else◌,
}
use eloan_peer.Prelude.GoString.{GoString, str_eq}
use eloan_peer.Prelude.Assoc.{Assoc, lookup, member, Distinct}
use eloan_peer.StateDb.{RListRef}
use eloan_peer.VersionedDb.{VersionedDb}
use eloan_peer.Strconv.{sign_bit}
use eloan_peer.Rlist.{RList, Store, datab_key}
use eloan_peer.Rlist.Lookup.{pending}
use eloan_peer.Rlist.Pair.{AreApart, two}

-- What stays the same: the places of the root and of the bucket, their names, and the map of
-- buckets.
pub record Frame : Type 0 where
  pub root : RListRef
  pub leaf : RListRef
  pub rest : Store
  pub name : GoString
  pub root_id : GoString
  pub leaf_head : ℕ
  pub leaf_tail : GoString
  pub root_seq : ℕ
  pub leaf_seq : ℕ
  pub root_ids : List GoString
  pub ns : GoString
  pub leaf_ns : GoString
  pub buckets : Assoc RListRef
  pub leaf_stub : Assoc (Option GoString)
  pub leaf_buckets : Assoc RListRef
  pub root_delete : Bool
  pub leaf_delete : Bool

-- The id of a bucket is not empty.
abbrev pub leaf_id : Frame → GoString
leaf_id f = f.leaf_head ∷ f.leaf_tail

-- What the methods change.
pub record Content : Type 0 where
  pub ids : List GoString
  pub leaf_size : ℕ
  pub root_size : ℕ
  pub put_stub : Assoc (Option GoString)
  pub root_save : Bool
  pub leaf_save : Bool

abbrev pub root_node : Frame → Content → RList
root_node f t = record {
  bucket_id = f.root_id;
  r_list_name = f.name;
  bucket_seq_no = f.root_seq;
  parent_list = none;
  bucket_list = f.leaf ∷ [];
  id_list = f.root_ids;
  size = t.root_size;
  is_load = true;
  need_save = t.root_save;
  need_delete = f.root_delete;
  ns = f.ns;
  put_stub = t.put_stub;
  rootlist = f.root;
  map_r_list = f.buckets;
}

abbrev pub leaf_node : Frame → Content → RList
leaf_node f t = record {
  bucket_id = leaf_id f;
  r_list_name = f.name;
  bucket_seq_no = f.leaf_seq;
  parent_list = some f.root;
  bucket_list = [];
  id_list = t.ids;
  size = t.leaf_size;
  is_load = true;
  need_save = t.leaf_save;
  need_delete = f.leaf_delete;
  ns = f.leaf_ns;
  put_stub = f.leaf_stub;
  rootlist = f.root;
  map_r_list = f.leaf_buckets;
}

abbrev pub store_at : Frame → Content → Store
store_at f t = two f.root f.leaf f.rest (root_node f t) (leaf_node f t)

-- The two sizes count the ids.
pub record IsSized (t : Content) : Type 0 where
  pub leaf : t.leaf_size ≡ length t.ids
  pub root : t.root_size ≡ length t.ids
  pub within : length t.ids < sign_bit

-- A list of an empty state: two names, the bucket is registered, and no id is stored.
pub record IsFrame (db : VersionedDb) (f : Frame) : Type 0 where
  pub places : AreApart f.root f.leaf f.rest
  pub names : str_eq (leaf_id f) f.root_id ≡ false
  pub known : lookup (leaf_id f) f.buckets ≡ some f.leaf
  pub fresh : (id : GoString) → db.get_state f.ns (datab_key f.name id) ≡ ok none

-- The list has the ids `ids`, each once, and the pending writes say where each of them is.
pub record Holds (f : Frame) (t : Content) (ids : List GoString) : Type 0 where
  pub list : t.ids ≡ ids
  pub sized : IsSized t
  pub distinct : Distinct ids
  pub index :
      (id : GoString)
      → pending (datab_key f.name id) t.put_stub
        ≡ (if member id ids then some (leaf_id f) else none)
