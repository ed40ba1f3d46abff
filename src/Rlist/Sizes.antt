-- ===== src/Rlist/Sizes.antt =====
-- The methods of rlist.go that walk up the chain of parents, and `addBucket`.
use eloan_peer.Prelude.{
  ℕ, zero, suc, true, false, Option, none, some, List, [], ◌∷◌, ◌++◌, leb, length, take, drop,
  if◌then◌else◌,
}
use eloan_peer.Prelude.GoString.{GoString, str_eq}
use eloan_peer.StateDb.{RListRef}
use eloan_peer.Strconv.{add_int64}
use eloan_peer.Rlist.{RList, M, pure, fault, ◌>>=◌, ◌>>◌, deref, assign, modify}

unfoldable pub add_size : ℕ → RListRef → ℕ → M (Unit {0})
add_size zero p num = fault
add_size (suc fuel) p num = do
  this ← deref p
  assign p (record this { size = add_int64 this.size num })
  elim this.parent_list [ none ↦ pure tt | some q ↦ add_size fuel q num ]

-- The sum of the sizes of buckets.
unfoldable pub cal_size : ℕ → List RListRef → M ℕ
cal_size total [] = pure total
cal_size total (v ∷ vs) = do bucket ← deref v; cal_size (add_int64 total bucket.size) vs

unfoldable pub set_size : ℕ → RListRef → M (Unit {0})
set_size zero p = fault
set_size (suc fuel) p = do
  this ← deref p
  elim this.bucket_list [
    | [] ↦ pure tt
    | v ∷ vs ↦ (do
      total ← cal_size 0 (v ∷ vs)
      modify p λ (this : RList). record this { size = total })
  ]
  elim this.parent_list [ none ↦ pure tt | some q ↦ set_size fuel q ]

unfoldable pub set_need_save : ℕ → RListRef → M (Unit {0})
set_need_save zero p = fault
set_need_save (suc fuel) p = do
  this ← deref p
  assign p (record this { need_save = true })
  elim this.parent_list [ none ↦ pure tt | some q ↦ set_need_save fuel q ]

-- `indexOf`, which finds a list by its bucket id; `none` is -1.
unfoldable pub index_of : List RListRef → GoString → M (Option ℕ)
index_of [] id = pure none
index_of (v ∷ vs) id = do
  bucket ← deref v
  elim (str_eq id bucket.bucket_id) [
    | true ↦ pure (some 0)
    | false ↦ (do n ← index_of vs id; pure (elim n [ none ↦ none | some k ↦ some (suc k) ]))
  ]

-- The loops that start at `bucketIndex := 0`.
unfoldable pub index_or_zero : List RListRef → GoString → M ℕ
index_or_zero vs id = do n ← index_of vs id; pure (elim n [ none ↦ 0 | some k ↦ k ])

-- `append(l[:index], x, l[index:]...)`, or at the end from there on.
unfoldable pub insert_at {ℓ} : {A : Type ℓ} → ℕ → A → List A → List A
insert_at index x l = if leb (length l) index then l ++ x ∷ [] else take index l ++ x ∷ drop index l

unfoldable pub add_bucket : ℕ → RListRef → ℕ → RListRef → M (Unit {0})
add_bucket fuel p index bucket = do
  this ← deref p
  let bucketlist = insert_at index bucket this.bucket_list
  modify bucket λ (b : RList). record b { parent_list = some p }
  modify p λ (this : RList). record this { bucket_list = bucketlist }
  set_need_save fuel bucket

-- The removal of a bucket at an index; `l[1:]` panics on an empty list.
unfoldable pub cut_at : {A : Type 0} → ℕ → List A → M (List A)
cut_at index [] = fault
cut_at index (v ∷ vs) = pure (take index (v ∷ vs) ++ drop (suc index) (v ∷ vs))

-- `p.BucketList` without the bucket at an index.
unfoldable pub remove_bucket : RListRef → ℕ → M (Unit {0})
remove_bucket p index = do
  this ← deref p
  bucketlist ← cut_at index this.bucket_list
  modify p λ (this : RList). record this { bucket_list = bucketlist }
