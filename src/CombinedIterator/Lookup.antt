-- ===== src/CombinedIterator/Lookup.antt =====
-- What the merge of two increasing lists holds at each key.
use Prim.Native.Nat.{Ordering}
use mathlib.Core.Path.{subst}
use eloan_peer.Prelude.{◌≡◌, refl, ◌∙◌, true, Option, none, some, List, [], ◌∷◌, arith}
use eloan_peer.Prelude.GoString.{GoString, str_eq, str_eq→≡}
use eloan_peer.StateDb.{VersionedKv}
use eloan_peer.StateDb.Sort.{Above-trans}
use eloan_peer.StateDb.Iterator.Range.{find_kv, key_list}
use eloan_peer.CombinedIterator.{compare_strings}
use eloan_peer.CombinedIterator.Merge.{
  AboveKv, Above-live, Above-merge, keep, live, merge_from, merge, live_item, first_some,
}
use eloan_peer.CombinedIterator.Overlay.{
  IncreasingKv, Compared, below, same, above, compared, find_kv-Above, find_kv-keep, Above-merge_x,
}

find_kv-live :
    (k : GoString) (xs : List VersionedKv)
    → IncreasingKv xs
    → find_kv k (live xs) ≡ live_item (find_kv k xs)
unfolding live find_kv live_item
find_kv-live k [] h = refl
find_kv-live k (x ∷ xs) h =
    ground (arith, find_kv-keep k x (live xs) (Above-live x.key xs h.0), find_kv-live k xs h.1)

find_kv-Above_eq :
    (k j : GoString) (xs : List VersionedKv)
    → str_eq j k ≡ true
    → AboveKv j xs
    → find_kv k xs ≡ none
find_kv-Above_eq k j xs e a =
    subst (λ i. find_kv i xs ≡ none) (str_eq→≡ j k e) (find_kv-Above j xs a)

-- The key's item in the overlay of `ys` over `xs`.
abbrev pub overlaid : GoString → List VersionedKv → List VersionedKv → Option VersionedKv
overlaid k xs ys = live_item (first_some (find_kv k ys) (find_kv k xs))

module _ (k : GoString) (x : VersionedKv) (xs : List VersionedKv) (above_x : AboveKv x.key xs) where
  find_kv-merge_nil :
      find_kv k (merge xs []) ≡ overlaid k xs []
      → find_kv k (keep x (merge xs [])) ≡ overlaid k (x ∷ xs) []
  unfolding find_kv live_item
  find_kv-merge_nil ih =
      ground (arith, find_kv-keep k x (merge xs []) (Above-merge x.key xs [] above_x tt))

  find_kv-merge_step :
      (y : VersionedKv) (ys : List VersionedKv) (o : Ordering)
      → Compared x.key y.key o
      → find_kv k (merge xs (y ∷ ys)) ≡ overlaid k xs (y ∷ ys)
      → find_kv k (merge xs ys) ≡ overlaid k xs ys
      → IncreasingKv (y ∷ ys)
      → find_kv k (merge_from x (merge xs) ys) ≡ overlaid k (x ∷ xs) ys
      → find_kv k (elim o [
        | Ordering.lt ↦ keep x (merge xs (y ∷ ys))
        | Ordering.eq ↦ keep y (merge xs ys)
        | Ordering.gt ↦ keep y (merge_from x (merge xs) ys)
      ])
        ≡ overlaid k (x ∷ xs) (y ∷ ys)
  unfolding find_kv live_item
  find_kv-merge_step y ys Ordering.lt (below p q) r1 r2 h ih =
      let a : AboveKv x.key (y ∷ ys) = (p, Above-trans x.key y.key (key_list ys) p h.0) in
      ground (
        arith,
        find_kv-keep k x (merge xs (y ∷ ys)) (Above-merge x.key xs (y ∷ ys) above_x a),
        find_kv-Above_eq k x.key (y ∷ ys),
        a,
      )
  find_kv-merge_step y ys Ordering.eq (same e) r1 r2 h ih = ground (
    arith,
    find_kv-keep k y (merge xs ys)
        (Above-merge y.key xs ys (subst (λ j. AboveKv j xs) e above_x) h.0),
  )
  find_kv-merge_step y ys Ordering.gt (above p q) r1 r2 h ih = ground (
    arith,
    find_kv-keep k y (merge_from x (merge xs) ys) (Above-merge_x x xs above_x y.key ys p h.0),
  )

  find_kv-merge_x :
      ((zs : List VersionedKv) → IncreasingKv zs → find_kv k (merge xs zs) ≡ overlaid k xs zs)
      → (ys : List VersionedKv) → IncreasingKv ys
      → find_kv k (merge_from x (merge xs) ys) ≡ overlaid k (x ∷ xs) ys
  unfolding merge_from
  find_kv-merge_x rest [] h = find_kv-merge_nil (rest [] tt)
  find_kv-merge_x rest (y ∷ ys) h =
      find_kv-merge_step y ys (compare_strings x.key y.key) (compared x.key y.key) (rest (y ∷ ys) h)
        (rest ys h.1) h (find_kv-merge_x rest ys h.1)

-- At every key the merge holds the item of the updates, or else the committed one, if it is live.
pub find_kv-merge :
    (k : GoString) (xs ys : List VersionedKv)
    → IncreasingKv xs
    → IncreasingKv ys
    → find_kv k (merge xs ys) ≡ overlaid k xs ys
unfolding merge find_kv
find_kv-merge k [] ys h i = find_kv-live k ys i ∙ live_lem (find_kv k ys)
  where
    live_lem : (o : Option VersionedKv) → live_item o ≡ live_item (first_some o none)
    live_lem none = refl
    live_lem (some x) = refl
find_kv-merge k (x ∷ xs) ys h i =
    find_kv-merge_x k x xs h.0 (λ zs j. find_kv-merge k xs zs h.1 j) ys i
