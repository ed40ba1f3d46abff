-- ===== src/StateDb/Iterator/Scan.antt =====
-- The range scan over a batch gives its keys of the range in increasing order.
use mathlib.Core.Path.{subst}
use eloan_peer.Prelude.{
  ℕ, zero, suc, ◌+◌, ◌≤◌, ◌<◌, ◌≡◌, refl, true, false, none, some, List, [], ◌∷◌, arith, All,
  is_some, take, drop, length, get_elem?, Bool-cases, is_some→some, sym, leb, inl, inr,
}
use eloan_peer.Prelude.GoString.{GoString}
use eloan_peer.Prelude.Assoc.{lookup}
use eloan_peer.StateDb.{VersionedValue, VersionedKv, NsUpdates}
use eloan_peer.StateDb.Iterator.{NsIterator, ns_next, Yields}

-- The items of the keys that the map holds.
unfoldable pub kvs : GoString → NsUpdates → List GoString → List VersionedKv
kvs ns m [] = []
kvs ns m (k ∷ l) = elim (lookup k m) [
  | none ↦ kvs ns m l
  | some vv ↦
      record { namespace = ns; key = k; value = vv.value; version = vv.version } ∷ kvs ns m l
]

-- Every key of the list is in the map.
abbrev pub Covers : NsUpdates → List GoString → Type 0
Covers m = All (λ k. is_some (lookup k m) ≡ true)

unfoldable pub slice : ℕ → ℕ → List GoString → List GoString
slice i j l = drop i (take j l)

-- A slice that is not empty begins with the entry at its index.
slice-step :
    (i j : ℕ) (l : List GoString)
    → i < j
    → j ≤ length l
    → (k : GoString) × (get_elem? l i ≡ some k) × (slice i j l ≡ k ∷ slice (suc i) j l)
unfolding slice
slice-step i zero l h b = absurd (omega arith)
slice-step i (suc j) [] h b = absurd (omega arith)
slice-step zero (suc j) (k ∷ l) h b = (k, refl, refl)
slice-step (suc i) (suc j) (k ∷ l) h b = slice-step i j l (omega arith) (omega arith)

slice-empty : (i j : ℕ) (l : List GoString) → j ≤ i → slice i j l ≡ []
unfolding slice
slice-empty zero zero l h = refl
slice-empty (suc i) zero l h = refl
slice-empty zero (suc j) l h = absurd (omega arith)
slice-empty (suc i) (suc j) [] h = refl
slice-empty (suc i) (suc j) (k ∷ l) h = slice-empty i j l (omega arith)

Covers-get_elem? :
    (m : NsUpdates) (l : List GoString) (i : ℕ) (k : GoString)
    → Covers m l
    → get_elem? l i ≡ some k
    → (vv : VersionedValue) × (lookup k m ≡ some vv)
Covers-get_elem? m [] i k c e = cc
Covers-get_elem? m (j ∷ l) zero k c e =
    let q : j ≡ k = cc in
    subst (λ x. (vv : VersionedValue) × (lookup x m ≡ some vv)) q (is_some→some (lookup j m) c.0)
Covers-get_elem? m (j ∷ l) (suc i) k c e = Covers-get_elem? m l i k c.1 e

-- One call of `Next` with keys left.
step-Yields :
    (itr : NsIterator) (k : GoString) (vv : VersionedValue) (rest : List GoString)
    → leb itr.last_index itr.next_index ≡ false
    → get_elem? itr.sorted_keys itr.next_index ≡ some k
    → lookup k itr.ns_updates ≡ some vv
    → Yields ns_next
        (kvs itr.ns itr.ns_updates rest)
        (record itr { next_index = suc itr.next_index })
    → Yields ns_next (kvs itr.ns itr.ns_updates (k ∷ rest)) itr
unfolding ns_next kvs
step-Yields itr k vv rest more at found y = rw (found, kvs) (rw more (rw at (rw found (refl, y))))

-- The items left are the slice of the keys between the two indices.
pub ns_next-Yields :
    (d : ℕ) (itr : NsIterator)
    → itr.last_index ≤ length itr.sorted_keys
    → Covers itr.ns_updates itr.sorted_keys
    → itr.last_index ≤ itr.next_index + d
    → Yields ns_next
        (kvs itr.ns itr.ns_updates (slice itr.next_index itr.last_index itr.sorted_keys))
        itr
unfolding ns_next kvs
ns_next-Yields zero itr b c h =
    rw (slice-empty itr.next_index itr.last_index itr.sorted_keys (omega arith)) (ground arith)
ns_next-Yields (suc d) itr b c h = elim (Bool-cases (leb itr.last_index itr.next_index)) [
  | inl done ↦
      rw (slice-empty itr.next_index itr.last_index itr.sorted_keys (ground arith)) (ground arith)
  | inr more ↦
      let (k, at, cut) =
        slice-step itr.next_index itr.last_index itr.sorted_keys (ground arith) b in
      let (vv, found) = Covers-get_elem? itr.ns_updates itr.sorted_keys itr.next_index k c at in
      subst (λ l. Yields ns_next (kvs itr.ns itr.ns_updates l) itr) (sym cut)
        (step-Yields itr k vv (slice (suc itr.next_index) itr.last_index itr.sorted_keys) more at
          found
          (ns_next-Yields d (record itr { next_index = suc itr.next_index }) b c (omega arith)))
]
