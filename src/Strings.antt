-- ===== src/Strings.antt =====
-- What the program uses of Go's strings package, on byte lists.
use eloan_peer.Prelude.{
  ◌≡◌, refl, arith, length-append, ℕ, zero, suc, ◌+◌, ◌-◌, Bool, true, false, ◌&&◌, Option, none,
  some, List, [], ◌∷◌, ◌++◌, Result, ok, err, panic, leb, ◌==◌, if◌then◌else◌, length, take, drop,
}
use eloan_peer.Prelude.GoString.{GoString, str_eq, has_prefix}

-- `strings.Index`, with -1 as none.
unfoldable pub index : GoString → GoString → Option ℕ
index [] sep = if str_eq [] sep then some 0 else none
index (c ∷ s) sep =
    let rest = index s sep in
    if has_prefix (c ∷ s) sep then some 0 else elim rest [ none ↦ none | some i ↦ some (suc i) ]

-- `s[i:]` and `s[:j]`, which panic out of range.
unfoldable pub slice_from : ℕ → GoString → Result GoString
slice_from i s = if leb i (length s) then ok (drop i s) else err panic

unfoldable pub slice_to : ℕ → GoString → Result GoString
slice_to j s = if leb j (length s) then ok (take j s) else err panic

-- `strings.Split` at a one-byte separator: the first part, and the others.
unfoldable pub split : ℕ → GoString → GoString × List GoString
split sep [] = ([], [])
split sep (c ∷ s) =
    let rest = split sep s in if c == sep then ([], rest.0 ∷ rest.1) else (c ∷ rest.0, rest.1)

to_lower : ℕ → ℕ
to_lower c = if leb b'A' c && leb c b'Z' then c + 32 else c

-- `strings.EqualFold` with a text of ASCII letters other than K and S, which fold to ASCII only.
unfoldable pub equal_fold : GoString → GoString → Bool
unfolding to_lower
equal_fold [] [] = true
equal_fold [] (d ∷ t) = false
equal_fold (c ∷ s) [] = false
equal_fold (c ∷ s) (d ∷ t) = to_lower c == to_lower d && equal_fold s t

-- The bytes that are skipped belong to the occurrence that was replaced last.
replace_from : GoString → GoString → ℕ → GoString → GoString
replace_from old new skip [] = []
replace_from old new (suc skip) (c ∷ s) = replace_from old new skip s
replace_from old new zero (c ∷ s) =
    let replaced = replace_from old new (length old - 1) s in
    let kept = replace_from old new 0 s in
    if has_prefix (c ∷ s) old then new ++ replaced else c ∷ kept

-- `strings.Replace(s, old, new, -1)` for an `old` that is not empty.
unfoldable pub replace : GoString → GoString → GoString → GoString
unfolding replace_from
replace s old new = replace_from old new 0 s

drop-append : (s t : GoString) → drop (length s) (s ++ t) ≡ t
drop-append [] t = refl
drop-append (c ∷ s) t = drop-append s t

pub slice_from-append : (s t : GoString) → slice_from (length s) (s ++ t) ≡ ok t
unfolding slice_from
slice_from-append s t =
    let h : leb (length s) (length (s ++ t)) ≡ true = ground (arith, length-append s t) in
    rw (h, drop-append s t) refl
