-- ===== src/StateDb/Sort.antt =====
-- `GetSortedKeys` of core/ledger/util/util.go and the binary search of `sort.SearchStrings`.
use eloan_peer.Prelude.{
  ℕ, suc, ◌≡◌, refl, true, false, not, ◌&&◌, ◌||◌, List, [], ◌∷◌, arith, All, if◌then◌else◌,
  is_some, take, drop,
}
use eloan_peer.Prelude.GoString.{GoString, str_eq, str_lt, str_eq_iff, str_lt_trans, str_lt_total}
use eloan_peer.Prelude.Assoc.{Distinct, Assoc, keys, member, lookup, member-keys}

insert_sorted : GoString → List GoString → List GoString
insert_sorted k [] = k ∷ []
insert_sorted k (j ∷ l) = let rest = insert_sorted k l in if str_lt j k then j ∷ rest else k ∷ j ∷ l

-- `sort.Strings`.
unfoldable pub sort_strings : List GoString → List GoString
unfolding insert_sorted
sort_strings [] = []
sort_strings (k ∷ l) = insert_sorted k (sort_strings l)

unfoldable pub get_sorted_keys {ℓ} : {V : Type ℓ} → Assoc V → List GoString
unfolding sort_strings
get_sorted_keys m = sort_strings (keys m)

-- The least index of a sorted list whose entry is not below `x`.
unfoldable pub search_strings : List GoString → GoString → ℕ
search_strings [] x = 0
search_strings (k ∷ l) x = let rest = search_strings l x in if str_lt k x then suc rest else 0

abbrev pub Above : GoString → List GoString → Type 0
Above k = All (λ j. str_lt k j ≡ true)

-- Strictly increasing.
abbrev pub Increasing : List GoString → Type 0
Increasing [] = Unit
Increasing (k ∷ l) = Above k l × Increasing l

pub Above-trans : (k j : GoString) (l : List GoString) → str_lt k j ≡ true → Above j l → Above k l
Above-trans k j [] h a = tt
Above-trans k j (i ∷ l) h a = (str_lt_trans k j i h a.0, Above-trans k j l h a.1)

Above-insert_sorted :
    (i k : GoString) (l : List GoString)
    → str_lt i k ≡ true
    → Above i l
    → Above i (insert_sorted k l)
unfolding insert_sorted
Above-insert_sorted i k [] h a = (h, tt)
Above-insert_sorted i k (j ∷ l) h a = ground (arith, Above-insert_sorted i k l)

member-insert_sorted :
    (i k : GoString) (l : List GoString) → member i (insert_sorted k l) ≡ (str_eq k i || member i l)
unfolding insert_sorted member
member-insert_sorted i k [] = refl
member-insert_sorted i k (j ∷ l) = ground (arith, member-insert_sorted i k l)

Increasing-insert_sorted :
    (k : GoString) (l : List GoString)
    → Increasing l
    → member k l ≡ false
    → Increasing (insert_sorted k l)
unfolding insert_sorted member
Increasing-insert_sorted k [] h n = (tt, tt)
Increasing-insert_sorted k (j ∷ l) h n = ground (
  arith,
  Increasing-insert_sorted k l,
  Above-insert_sorted j k l,
  Above-trans k j l,
  str_lt_total j k,
)

member-sort_strings : (i : GoString) (l : List GoString) → member i (sort_strings l) ≡ member i l
unfolding sort_strings member
member-sort_strings i [] = refl
member-sort_strings i (k ∷ l) =
    ground (arith, member-insert_sorted i k (sort_strings l), member-sort_strings i l)

Increasing-sort_strings : (l : List GoString) → Distinct l → Increasing (sort_strings l)
unfolding sort_strings
Increasing-sort_strings [] h = tt
Increasing-sort_strings (k ∷ l) h =
    Increasing-insert_sorted k (sort_strings l) (Increasing-sort_strings l h.1)
      (ground (arith, member-sort_strings k l))

module _ {ℓ} {V : Type ℓ} where
  -- The sorted keys increase and hold exactly the keys of the map.
  pub get_sorted_keys_lem :
      (m : Assoc V)
      → Distinct (keys m)
      → Increasing (get_sorted_keys m)
        × ((k : GoString) → member k (get_sorted_keys m) ≡ is_some (lookup k m))
  unfolding get_sorted_keys
  get_sorted_keys_lem m h = (
    Increasing-sort_strings (keys m) h,
    λ k. ground (arith, member-sort_strings k (keys m), member-keys k m),
  )

pub Above-not-member :
    (k i : GoString) (l : List GoString) → Above k l → str_lt k i ≡ false → member i l ≡ false
unfolding member
Above-not-member k i [] a h = refl
Above-not-member k i (j ∷ l) a h = ground (arith, Above-not-member k i l, str_eq_iff j i)

-- The entries of a sorted list from the least one that is not below `x`, and those below it.
pub member-drop :
    (x i : GoString) (l : List GoString)
    → Increasing l
    → member i (drop (search_strings l x) l) ≡ (member i l && not (str_lt i x))
unfolding search_strings member
member-drop x i [] h = refl
member-drop x i (k ∷ l) h = ground (
  arith,
  member-drop x i l,
  str_eq_iff k i,
  Above-not-member k i l h.0,
  str_lt_trans k i x,
  str_lt_total k i,
)

pub member-take :
    (x i : GoString) (l : List GoString)
    → Increasing l
    → member i (take (search_strings l x) l) ≡ (member i l && str_lt i x)
unfolding search_strings member
member-take x i [] h = refl
member-take x i (k ∷ l) h = ground (
  arith,
  member-take x i l,
  str_eq_iff k i,
  Above-not-member k i l h.0,
  str_lt_trans k i x,
  str_lt_total k i,
)
