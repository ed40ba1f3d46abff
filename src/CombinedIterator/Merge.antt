-- ===== src/CombinedIterator/Merge.antt =====
-- The merge of two increasing lists of items, in which updates win and deletions are dropped.
use Prim.Native.Nat.{Ordering}
use eloan_peer.Prelude.{◌≡◌, true, Option, none, some, List, [], ◌∷◌, arith, if◌then◌else◌}
use eloan_peer.Prelude.GoString.{GoString, str_lt}
use eloan_peer.StateDb.{VersionedKv}
use eloan_peer.StateDb.Sort.{Above}
use eloan_peer.StateDb.Iterator.Range.{key_list}
use eloan_peer.CombinedIterator.{compare_strings, is_delete}

unfoldable pub keep : VersionedKv → List VersionedKv → List VersionedKv
keep x l = if is_delete x then l else x ∷ l

unfoldable pub live : List VersionedKv → List VersionedKv
live [] = []
live (x ∷ xs) = keep x (live xs)

-- `rest` merges what follows `x`.
unfoldable pub merge_from :
    VersionedKv → (List VersionedKv → List VersionedKv) → List VersionedKv → List VersionedKv
merge_from x rest [] = keep x (rest [])
merge_from x rest (y ∷ ys) = elim (compare_strings x.key y.key) [
  | Ordering.lt ↦ keep x (rest (y ∷ ys))
  | Ordering.eq ↦ keep y (rest ys)
  | Ordering.gt ↦ keep y (merge_from x rest ys)
]

unfoldable pub merge : List VersionedKv → List VersionedKv → List VersionedKv
merge [] ys = live ys
merge (x ∷ xs) ys = merge_from x (merge xs) ys

-- The value of an item that is not deleted.
unfoldable pub live_item : Option VersionedKv → Option VersionedKv
live_item none = none
live_item (some x) = if is_delete x then none else some x

abbrev pub first_some : Option VersionedKv → Option VersionedKv → Option VersionedKv
first_some none o = o
first_some (some x) o = some x

abbrev pub AboveKv : GoString → List VersionedKv → Type 0
AboveKv k xs = Above k (key_list xs)

Above-keep :
    (k : GoString) (x : VersionedKv) (l : List VersionedKv)
    → str_lt k x.key ≡ true
    → AboveKv k l
    → AboveKv k (keep x l)
unfolding keep
Above-keep k x l h a = ground arith

pub Above-live : (k : GoString) (xs : List VersionedKv) → AboveKv k xs → AboveKv k (live xs)
unfolding live
Above-live k [] a = tt
Above-live k (x ∷ xs) a = Above-keep k x (live xs) a.0 (Above-live k xs a.1)

pub Above-merge_from :
    (k : GoString) (x : VersionedKv) (rest : List VersionedKv → List VersionedKv)
    → ((ys : List VersionedKv) → AboveKv k ys → AboveKv k (rest ys))
    → (ys : List VersionedKv) → str_lt k x.key ≡ true
    → AboveKv k ys
    → AboveKv k (merge_from x rest ys)
unfolding merge_from
Above-merge_from k x rest r [] h a = Above-keep k x (rest []) h (r [] tt)
Above-merge_from k x rest r (y ∷ ys) h a = ground (
  arith,
  Above-keep k x (rest (y ∷ ys)),
  Above-keep k y (rest ys),
  Above-keep k y (merge_from x rest ys),
  r (y ∷ ys),
  r ys,
  Above-merge_from k x rest r ys h,
)

pub Above-merge :
    (k : GoString) (xs ys : List VersionedKv)
    → AboveKv k xs
    → AboveKv k ys
    → AboveKv k (merge xs ys)
unfolding merge
Above-merge k [] ys a b = Above-live k ys b
Above-merge k (x ∷ xs) ys a b =
    Above-merge_from k x (merge xs) (λ zs c. Above-merge k xs zs a.1 c) ys a.0 b
