-- ===== src/StateDb/Iterator/Range.antt =====
-- Which keys a range scan gives: those that lie in the range, each once, in increasing order.

use eloan_peer.Prelude.{
  ℕ, zero, suc, ◌≤◌, ◌≡◌, refl, ap, true, not, ◌&&◌, ◌||◌, Option, none, some, List, [], ◌∷◌, arith,
  if◌then◌else◌, is_some, take, drop, length, Bool-cases, Option-cases, inl, inr,
}
use eloan_peer.Prelude.GoString.{GoString, str_eq, str_lt, str_eq_iff, str_eq→≡}
use eloan_peer.Prelude.Assoc.{member, lookup}
use eloan_peer.StateDb.{VersionedValue, VersionedKv, NsUpdates}
use eloan_peer.StateDb.Sort.{Above, Increasing, search_strings, member-drop, member-take}
use eloan_peer.StateDb.Iterator.{in_range, is_empty, start_index, end_index}
use eloan_peer.StateDb.Iterator.Scan.{kvs, slice, Covers}

drop-nil : (n : ℕ) → drop {A = GoString} n [] ≡ []
drop-nil zero = refl
drop-nil (suc n) = refl

take-length : (l : List GoString) → take (length l) l ≡ l
take-length [] = refl
take-length (k ∷ l) = ap (λ r. k ∷ r) (take-length l)

Above-take : (k : GoString) (n : ℕ) (l : List GoString) → Above k l → Above k (take n l)
Above-take k zero l a = tt
Above-take k (suc n) [] a = tt
Above-take k (suc n) (j ∷ l) a = (a.0, Above-take k n l a.1)

Increasing-take : (n : ℕ) (l : List GoString) → Increasing l → Increasing (take n l)
Increasing-take zero l h = tt
Increasing-take (suc n) [] h = tt
Increasing-take (suc n) (k ∷ l) h = (Above-take k n l h.0, Increasing-take n l h.1)

Increasing-drop : (n : ℕ) (l : List GoString) → Increasing l → Increasing (drop n l)
Increasing-drop zero l h = h
Increasing-drop (suc n) [] h = tt
Increasing-drop (suc n) (k ∷ l) h = Increasing-drop n l h.1

drop-search_strings-take :
    (x : GoString) (n : ℕ) (l : List GoString)
    → drop (search_strings l x) (take n l) ≡ drop (search_strings (take n l) x) (take n l)
unfolding search_strings
drop-search_strings-take x zero l = drop-nil (search_strings l x)
drop-search_strings-take x (suc n) [] = refl
drop-search_strings-take x (suc n) (k ∷ l) = ground (arith, drop-search_strings-take x n l)

member-drop-start_index :
    (start_key k : GoString) (n : ℕ) (l : List GoString)
    → Increasing l
    → member k (drop (start_index start_key l) (take n l))
      ≡ (member k (take n l) && (is_empty start_key || not (str_lt k start_key)))
unfolding start_index
member-drop-start_index [] k n l h = ground arith
member-drop-start_index (c ∷ s) k n l h =
    rw (drop-search_strings-take (c ∷ s) n l)
      (member-drop (c ∷ s) k (take n l) (Increasing-take n l h))

member-take-end_index :
    (end_key k : GoString) (l : List GoString)
    → Increasing l
    → member k (take (end_index end_key l) l)
      ≡ (member k l && (is_empty end_key || str_lt k end_key))
unfolding end_index
member-take-end_index [] k l h = rw (take-length l) (ground arith)
member-take-end_index (c ∷ s) k l h = member-take (c ∷ s) k l h

pub member-slice :
    (start_key end_key k : GoString) (l : List GoString)
    → Increasing l
    → member k (slice (start_index start_key l) (end_index end_key l) l)
      ≡ (member k l && in_range start_key end_key k)
unfolding slice in_range
member-slice start_key end_key k l h = ground (
  arith,
  member-drop-start_index start_key k (end_index end_key l) l h,
  member-take-end_index end_key k l h,
)

-- The first item with a key.
unfoldable pub find_kv : GoString → List VersionedKv → Option VersionedKv
find_kv k [] = none
find_kv k (x ∷ xs) = if str_eq x.key k then some x else find_kv k xs

abbrev pub key_list : List VersionedKv → List GoString
key_list [] = []
key_list (x ∷ xs) = x.key ∷ key_list xs

abbrev pub to_item : GoString → GoString → Option VersionedValue → Option VersionedKv
to_item ns k none = none
to_item ns k (some vv) =
    some (record { namespace = ns; key = k; value = vv.value; version = vv.version })

pub Covers-take : (m : NsUpdates) (n : ℕ) (l : List GoString) → Covers m l → Covers m (take n l)
Covers-take m zero l c = tt
Covers-take m (suc n) [] c = tt
Covers-take m (suc n) (k ∷ l) c = (c.0, Covers-take m n l c.1)

pub Covers-drop : (m : NsUpdates) (n : ℕ) (l : List GoString) → Covers m l → Covers m (drop n l)
Covers-drop m zero l c = c
Covers-drop m (suc n) [] c = tt
Covers-drop m (suc n) (k ∷ l) c = Covers-drop m n l c.1

pub key_list-kvs :
    (ns : GoString) (m : NsUpdates) (l : List GoString) → Covers m l → key_list (kvs ns m l) ≡ l
unfolding kvs
key_list-kvs ns m [] c = refl
key_list-kvs ns m (k ∷ l) c = elim (Option-cases (lookup k m)) [
  | inl e ↦ ground (arith, c.0)
  | inr (vv, e) ↦ rw (e, kvs) (ap (λ r. k ∷ r) (key_list-kvs ns m l c.1))
]

pub find_kv-kvs :
    (ns : GoString) (m : NsUpdates) (j : GoString) (l : List GoString)
    → Covers m l
    → find_kv j (kvs ns m l) ≡ (if member j l then to_item ns j (lookup j m) else none)
unfolding kvs find_kv member
find_kv-kvs ns m j [] c = refl
find_kv-kvs ns m j (k ∷ l) c = elim (Option-cases (lookup k m)) [
  | inl e ↦ ground (arith, c.0)
  | inr (vv, e) ↦
      rw (e, kvs)
        (elim (Bool-cases (str_eq k j)) [
          | inl same ↦ rw (same, ← str_eq→≡ k j same, e)
          | inr other ↦ rw other (find_kv-kvs ns m j l c.1)
        ])
]

-- Every key of the list that is in it is in the map.
pub Covers-of_member :
    (m : NsUpdates) (l : List GoString)
    → ((k : GoString) → member k l ≡ true → is_some (lookup k m) ≡ true)
    → Covers m l
unfolding member
Covers-of_member m [] h = tt
Covers-of_member m (k ∷ l) h =
    (h k (ground (arith, str_eq_iff k k)), Covers-of_member m l (λ j e. h j (ground arith)))

pub Increasing-slice : (i j : ℕ) (l : List GoString) → Increasing l → Increasing (slice i j l)
unfolding slice
Increasing-slice i j l h = Increasing-drop i (take j l) (Increasing-take j l h)

search_strings-le : (x : GoString) (l : List GoString) → search_strings l x ≤ length l
unfolding search_strings
search_strings-le x [] = omega arith
search_strings-le x (k ∷ l) = ground (arith, search_strings-le x l)

pub end_index-le : (x : GoString) (l : List GoString) → end_index x l ≤ length l
unfolding end_index
end_index-le [] l = omega arith
end_index-le (c ∷ s) l = search_strings-le (c ∷ s) l

-- What a range scan over the map `m` of the namespace `ns` gives.
pub record IsScan (ns start_key end_key : GoString) (at : GoString → Option VersionedValue)
    (xs : List VersionedKv) : Type 0 where
  pub increasing : Increasing (key_list xs)
  pub finds :
      (k : GoString)
      → find_kv k xs ≡ (if in_range start_key end_key k then to_item ns k (at k) else none)
