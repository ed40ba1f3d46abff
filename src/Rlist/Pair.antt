-- ===== src/Rlist/Pair.antt =====
-- Two nodes of a store, and what reading and writing either does.
use eloan_peer.Prelude.{
  ℕ, zero, suc, ◌<◌, ◌≡◌, ◌≢◌, refl, sym, ap, List, [], ◌∷◌, ok, arith, length, set,
  get_elem?-set_self, get_elem?-set_ne, length-set,
}
use eloan_peer.StateDb.{RListRef}
use eloan_peer.Rlist.{RList, Store, deref, assign}

set-set {ℓ} : {A : Type ℓ} (xs : List A) (i : ℕ) (v w : A) → set (set xs i v) i w ≡ set xs i w
set-set [] i v w = refl
set-set (x ∷ xs) zero v w = refl
set-set (x ∷ xs) (suc i) v w = ap (λ l. x ∷ l) (set-set xs i v w)

set-set_ne {ℓ} :
    {A : Type ℓ} (xs : List A) (i j : ℕ) (v w : A)
    → i ≢ j
    → set (set xs i v) j w ≡ set (set xs j w) i v
set-set_ne [] i j v w h = refl
set-set_ne (x ∷ xs) zero zero v w h = absurd (h refl)
set-set_ne (x ∷ xs) zero (suc j) v w h = refl
set-set_ne (x ∷ xs) (suc i) zero v w h = refl
set-set_ne (x ∷ xs) (suc i) (suc j) v w h =
    ap (λ l. x ∷ l) (set-set_ne xs i j v w (λ e. h (ap suc e)))

-- Two different places of a store.
pub record AreApart (r c : RListRef) (s : Store) : Type 0 where
  pub first : r < length s
  pub second : c < length s
  pub apart : r ≢ c

module _ (r c : RListRef) (s : Store) where
  unfoldable pub two : RList → RList → Store
  two a b = set (set s r a) c b

  module _ (h : AreApart r c s) (a b : RList) where
    pub deref_first : deref r (two a b) ≡ ok (a, two a b)
    unfolding deref two
    deref_first = rw (
      get_elem?-set_ne (set s r a) c r b (λ e. h.apart (sym e)),
      get_elem?-set_self s r a h.first,
      deref,
    )

    pub deref_second : deref c (two a b) ≡ ok (b, two a b)
    unfolding deref two
    deref_second =
        rw (get_elem?-set_self (set s r a) c b (omega (arith, length-set s r a, h.second)), deref)

    pub assign_first : (x : RList) → assign r x (two a b) ≡ ok (tt, two x b)
    unfolding assign two
    assign_first x = rw (set-set_ne (set s r a) c r b x (λ e. h.apart (sym e)), set-set s r a x)

    pub assign_second : (x : RList) → assign c x (two a b) ≡ ok (tt, two a x)
    unfolding assign two
    assign_second x = rw (set-set (set s r a) c b x)
