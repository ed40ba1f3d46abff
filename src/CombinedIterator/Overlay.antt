-- ===== src/CombinedIterator/Overlay.antt =====
-- The merge is the overlay of the updates over the committed items, key by key.
use Prim.Native.Nat.{Ordering}
use mathlib.Core.Path.{subst}
use eloan_peer.Prelude.{
  ◌≡◌, refl, Bool, true, false, none, some, List, [], ◌∷◌, arith, if◌then◌else◌,
}
use eloan_peer.Prelude.GoString.{
  GoString, str_eq, str_lt, str_eq_iff, str_eq→≡, str_lt_total, str_lt_irrefl,
}
use eloan_peer.StateDb.{VersionedKv}
use eloan_peer.StateDb.Sort.{Increasing, Above-trans}
use eloan_peer.StateDb.Iterator.Range.{find_kv, key_list}
use eloan_peer.CombinedIterator.{compare_strings}
use eloan_peer.CombinedIterator.Merge.{
  AboveKv, Above-live, Above-merge, Above-merge_from, keep, live, merge_from, merge, live_item,
}

abbrev pub IncreasingKv : List VersionedKv → Type 0
IncreasingKv xs = Increasing (key_list xs)

-- Two keys are compared in one of three ways.
pub data Compared (s t : GoString) : Ordering → Type 0 where
  below : str_lt s t ≡ true → str_eq s t ≡ false → Compared s t Ordering.lt
  same : s ≡ t → Compared s t Ordering.eq
  above : str_lt t s ≡ true → str_eq s t ≡ false → Compared s t Ordering.gt

Compared-if :
    (s t : GoString) (e l : Bool)
    → str_eq s t ≡ e
    → str_lt s t ≡ l
    → Compared s t (if e then Ordering.eq else if l then Ordering.lt else Ordering.gt)
Compared-if s t true l p q = same (str_eq→≡ s t p)
Compared-if s t false true p q = below q p
Compared-if s t false false p q = above (str_lt_total s t q p) p

pub compared : (s t : GoString) → Compared s t (compare_strings s t)
unfolding compare_strings
compared s t = Compared-if s t (str_eq s t) (str_lt s t) refl refl

Increasing-keep :
    (x : VersionedKv) (l : List VersionedKv)
    → AboveKv x.key l
    → IncreasingKv l
    → IncreasingKv (keep x l)
unfolding keep
Increasing-keep x l a h = ground arith

pub Increasing-live : (xs : List VersionedKv) → IncreasingKv xs → IncreasingKv (live xs)
unfolding live
Increasing-live [] h = tt
Increasing-live (x ∷ xs) h =
    Increasing-keep x (live xs) (Above-live x.key xs h.0) (Increasing-live xs h.1)

module _ (x : VersionedKv) (xs : List VersionedKv) (above_x : AboveKv x.key xs) where
  pub Above-merge_x :
      (k : GoString) (ys : List VersionedKv)
      → str_lt k x.key ≡ true
      → AboveKv k ys
      → AboveKv k (merge_from x (merge xs) ys)
  Above-merge_x k ys h a =
      Above-merge_from k x (merge xs)
        (λ zs c. Above-merge k xs zs (Above-trans k x.key (key_list xs) h above_x) c) ys h a

  Increasing-merge_step :
      (y : VersionedKv) (ys : List VersionedKv) (o : Ordering)
      → Compared x.key y.key o
      → ((zs : List VersionedKv) → IncreasingKv zs → IncreasingKv (merge xs zs))
      → IncreasingKv (y ∷ ys)
      → IncreasingKv (merge_from x (merge xs) ys)
      → IncreasingKv (elim o [
        | Ordering.lt ↦ keep x (merge xs (y ∷ ys))
        | Ordering.eq ↦ keep y (merge xs ys)
        | Ordering.gt ↦ keep y (merge_from x (merge xs) ys)
      ])
  Increasing-merge_step y ys Ordering.lt (below p q) rest h ih =
      Increasing-keep x (merge xs (y ∷ ys))
        (Above-merge x.key xs (y ∷ ys) above_x (p, Above-trans x.key y.key (key_list ys) p h.0))
        (rest (y ∷ ys) h)
  Increasing-merge_step y ys Ordering.eq (same e) rest h ih =
      Increasing-keep y (merge xs ys)
        (Above-merge y.key xs ys (subst (λ k. AboveKv k xs) e above_x) h.0) (rest ys h.1)
  Increasing-merge_step y ys Ordering.gt (above p q) rest h ih =
      Increasing-keep y (merge_from x (merge xs) ys) (Above-merge_x y.key ys p h.0) ih

  Increasing-merge_x :
      ((zs : List VersionedKv) → IncreasingKv zs → IncreasingKv (merge xs zs))
      → (ys : List VersionedKv) → IncreasingKv ys
      → IncreasingKv (merge_from x (merge xs) ys)
  unfolding merge_from
  Increasing-merge_x rest [] h =
      Increasing-keep x (merge xs []) (Above-merge x.key xs [] above_x tt) (rest [] tt)
  Increasing-merge_x rest (y ∷ ys) h =
      Increasing-merge_step y ys (compare_strings x.key y.key) (compared x.key y.key) rest h
        (Increasing-merge_x rest ys h.1)

pub Increasing-merge :
    (xs ys : List VersionedKv) → IncreasingKv xs → IncreasingKv ys → IncreasingKv (merge xs ys)
unfolding merge
Increasing-merge [] ys h k = Increasing-live ys k
Increasing-merge (x ∷ xs) ys h k =
    Increasing-merge_x x xs h.0 (λ zs i. Increasing-merge xs zs h.1 i) ys k

-- Below every key of a list nothing is found.
pub find_kv-Above : (k : GoString) (xs : List VersionedKv) → AboveKv k xs → find_kv k xs ≡ none
unfolding find_kv
find_kv-Above k [] a = refl
find_kv-Above k (x ∷ xs) a =
    ground (arith, find_kv-Above k xs a.1, str_eq_iff x.key k, str_lt_irrefl k)

pub find_kv-keep :
    (k : GoString) (x : VersionedKv) (l : List VersionedKv)
    → AboveKv x.key l
    → find_kv k (keep x l) ≡ (if str_eq x.key k then live_item (some x) else find_kv k l)
unfolding find_kv keep live_item
find_kv-keep k x l a = ground (arith, find_kv-Above k l, str_eq_iff x.key k)
