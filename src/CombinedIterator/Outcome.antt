-- ===== src/CombinedIterator/Outcome.antt =====
-- The calls of `Next` one after the other: deleted items are skipped, and the end key comes last.
use Prim.Native.Nat.{Ordering}
use mathlib.Core.Path.{subst}
use eloan_peer.Prelude.{
  ℕ, zero, suc, ◌+◌, ◌<◌, ◌≡◌, refl, sym, ◌∙◌, true, false, none, some, List, [], ◌∷◌, arith,
  Bool-cases, inl, inr, ok, length,
}
use eloan_peer.StateDb.{VersionedKv}
use eloan_peer.StateDb.Iterator.{Item}
use eloan_peer.VersionedDb.{VersionedDb}
use eloan_peer.CombinedIterator.{
  compare_strings, is_delete, CombinedIterator, return, again, round, combined_next,
  serve_end_key_if_needed, compare_keys, serve_selected, select, round_at,
}
use eloan_peer.CombinedIterator.Merge.{keep, live, merge_from, merge}
use eloan_peer.CombinedIterator.Next.{
  Input, Tracks, Selects, select-db, select_updates, select_both, round_at-eq,
}

module _ (x y : VersionedKv) (xs ys : List VersionedKv) where
  merge-lt :
      compare_strings x.key y.key ≡ Ordering.lt
      → merge (x ∷ xs) (y ∷ ys) ≡ keep x (merge xs (y ∷ ys))
  unfolding merge merge_from
  merge-lt e = rw (e, merge_from)

  merge-eq :
      compare_strings x.key y.key ≡ Ordering.eq → merge (x ∷ xs) (y ∷ ys) ≡ keep y (merge xs ys)
  unfolding merge merge_from
  merge-eq e = rw (e, merge_from)

  merge-gt :
      compare_strings x.key y.key ≡ Ordering.gt
      → merge (x ∷ xs) (y ∷ ys) ≡ keep y (merge (x ∷ xs) ys)
  unfolding merge merge_from
  merge-gt e = rw (e, merge_from)

below_fuel : {a b fuel : ℕ} → a < b → b < suc fuel → a < fuel
below_fuel h k = omega arith

keep-deleted : (z : VersionedKv) (l : List VersionedKv) → is_delete z ≡ true → keep z l ≡ l
unfolding keep
keep-deleted z l d = rw d

keep-live : (z : VersionedKv) (l : List VersionedKv) → is_delete z ≡ false → keep z l ≡ z ∷ l
unfolding keep
keep-live z l d = rw d

module _ (db : VersionedDb) (c : Input db) where
  Selects-compared :
      (itr : CombinedIterator db) (x y : VersionedKv) (xs ys : List VersionedKv) (o : Ordering)
      → Tracks db c itr (x ∷ xs) (y ∷ ys)
      → compare_strings x.key y.key ≡ o
      → round db itr ≡ select db o itr
      → Selects db c itr (x ∷ xs) (y ∷ ys)
  Selects-compared itr x y xs ys Ordering.lt t e r =
      select-db db c itr x xs (y ∷ ys) t r (merge-lt x y xs ys e)
  Selects-compared itr x y xs ys Ordering.eq t e r =
      select_both db c itr x y xs ys t r (merge-eq x y xs ys e)
  Selects-compared itr x y xs ys Ordering.gt t e r =
      select_updates db c itr y (x ∷ xs) ys t r (merge-gt x y xs ys e)

  -- What a call of `Next` returns: the first live item of the merge, or the end.
  pub data Outcome (xs ys : List VersionedKv) (r : Item × CombinedIterator db) : Type 0 where
    ended :
        (itr' : CombinedIterator db)
        → r ≡ serve_end_key_if_needed db itr'
        → merge xs ys ≡ []
        → Tracks db c itr' [] []
        → Outcome xs ys r
    gave :
        (z : VersionedKv) (xs' ys' : List VersionedKv) (itr' : CombinedIterator db)
        → r ≡ (ok (some z), itr')
        → merge xs ys ≡ z ∷ merge xs' ys'
        → Tracks db c itr' xs' ys'
        → length xs' + length ys' < length xs + length ys
        → Outcome xs ys r

  Outcome-later :
      (xs ys xs' ys' : List VersionedKv) (r : Item × CombinedIterator db)
      → merge xs ys ≡ merge xs' ys'
      → length xs' + length ys' < length xs + length ys
      → Outcome xs' ys' r
      → Outcome xs ys r
  Outcome-later xs ys xs' ys' r e lt (ended itr' q m t) = ended itr' q (e ∙ m) t
  Outcome-later xs ys xs' ys' r e lt (gave z xs2 ys2 itr' q m t lt') =
      gave z xs2 ys2 itr' q (e ∙ m) t (omega arith)

  serve_selected-deleted :
      (z : VersionedKv) (itr' : CombinedIterator db)
      → is_delete z ≡ true
      → serve_selected db (some z) (none, itr') ≡ again itr'
  unfolding serve_selected
  serve_selected-deleted z itr' d = ground arith

  serve_selected-live :
      (z : VersionedKv) (itr' : CombinedIterator db)
      → is_delete z ≡ false
      → serve_selected db (some z) (none, itr') ≡ return (ok (some z), itr')
  unfolding serve_selected
  serve_selected-live z itr' d = ground arith

  combined_next-again :
      (fuel : ℕ) (itr itr' : CombinedIterator db)
      → round db itr ≡ again itr'
      → combined_next db (suc fuel) itr ≡ combined_next db fuel itr'
  unfolding combined_next
  combined_next-again fuel itr itr' e = rw (e, combined_next)

  pub combined_next-return :
      (fuel : ℕ) (itr : CombinedIterator db) (r : Item × CombinedIterator db)
      → round db itr ≡ return r
      → combined_next db (suc fuel) itr ≡ r
  unfolding combined_next
  combined_next-return fuel itr r e = rw (e, combined_next)

  Outcome-deleted :
      (fuel : ℕ) (itr : CombinedIterator db) (xs ys : List VersionedKv)
      → (s : Selects db c itr xs ys) → is_delete s.z ≡ true
      → Outcome s.xs' s.ys' (combined_next db fuel s.itr')
      → Outcome xs ys (combined_next db (suc fuel) itr)
  Outcome-deleted fuel itr xs ys s d o =
      subst (Outcome xs ys)
        (sym
          (combined_next-again fuel itr s.itr' (s.selected ∙ serve_selected-deleted s.z s.itr' d)))
        (Outcome-later xs ys s.xs' s.ys' (combined_next db fuel s.itr')
          (s.merged ∙ keep-deleted s.z (merge s.xs' s.ys') d) s.smaller o)

  Outcome-live :
      (fuel : ℕ) (itr : CombinedIterator db) (xs ys : List VersionedKv)
      → (s : Selects db c itr xs ys) → is_delete s.z ≡ false
      → Outcome xs ys (combined_next db (suc fuel) itr)
  Outcome-live fuel itr xs ys s d =
      gave s.z s.xs' s.ys' s.itr'
        (combined_next-return fuel itr (ok (some s.z), s.itr')
          (s.selected ∙ serve_selected-live s.z s.itr' d))
        (s.merged ∙ keep-live s.z (merge s.xs' s.ys') d) s.tracks s.smaller

  -- A selected item is given, or skipped by the call that `Next` makes of itself.
  Outcome-selected :
      (fuel : ℕ) (itr : CombinedIterator db) (xs ys : List VersionedKv)
      → (s : Selects db c itr xs ys) → Outcome s.xs' s.ys' (combined_next db fuel s.itr')
      → Outcome xs ys (combined_next db (suc fuel) itr)
  Outcome-selected fuel itr xs ys s o = elim (Bool-cases (is_delete s.z)) [
    | inl d ↦ Outcome-deleted fuel itr xs ys s d o
    | inr d ↦ Outcome-live fuel itr xs ys s d
  ]

  Selects-db_only :
      (itr : CombinedIterator db) (x : VersionedKv) (xs : List VersionedKv)
      → Tracks db c itr (x ∷ xs) []
      → Selects db c itr (x ∷ xs) []
  unfolding merge merge_from round_at compare_keys
  Selects-db_only itr x xs t =
      select-db db c itr x xs [] t (round_at-eq db itr (some x) none t.from_db.0 t.from_updates)
        refl

  Selects-updates_only :
      (itr : CombinedIterator db) (y : VersionedKv) (ys : List VersionedKv)
      → Tracks db c itr [] (y ∷ ys)
      → Selects db c itr [] (y ∷ ys)
  unfolding merge live round_at compare_keys
  Selects-updates_only itr y ys t =
      select_updates db c itr y [] ys t
        (round_at-eq db itr none (some y) t.from_db t.from_updates.0) refl

  Selects-both :
      (itr : CombinedIterator db) (x y : VersionedKv) (xs ys : List VersionedKv)
      → Tracks db c itr (x ∷ xs) (y ∷ ys)
      → Selects db c itr (x ∷ xs) (y ∷ ys)
  unfolding round_at compare_keys
  Selects-both itr x y xs ys t =
      Selects-compared itr x y xs ys (compare_strings x.key y.key) t refl
        (round_at-eq db itr (some x) (some y) t.from_db.0 t.from_updates.0)

  -- With more fuel than items left, a call of `Next` has an outcome.
  pub combined_next-Outcome :
      (fuel : ℕ) (itr : CombinedIterator db) (xs ys : List VersionedKv)
      → length xs + length ys < fuel
      → Tracks db c itr xs ys
      → Outcome xs ys (combined_next db fuel itr)
  combined_next-Outcome zero itr xs ys h t = absurd (omega arith)
  combined_next-Outcome (suc fuel) itr [] [] h t =
      ended itr
        (combined_next-return fuel itr (serve_end_key_if_needed db itr)
          (round_at-eq db itr none none t.from_db t.from_updates ∙ unfold round_at in refl))
        (unfold merge live in refl) t
  combined_next-Outcome (suc fuel) itr (x ∷ xs) [] h t =
      let s : Selects db c itr (x ∷ xs) [] = Selects-db_only itr x xs t in
      Outcome-selected fuel itr (x ∷ xs) [] s
        (combined_next-Outcome fuel s.itr' s.xs' s.ys' (below_fuel s.smaller h) s.tracks)
  combined_next-Outcome (suc fuel) itr [] (y ∷ ys) h t =
      let s : Selects db c itr [] (y ∷ ys) = Selects-updates_only itr y ys t in
      Outcome-selected fuel itr [] (y ∷ ys) s
        (combined_next-Outcome fuel s.itr' s.xs' s.ys' (below_fuel s.smaller h) s.tracks)
  combined_next-Outcome (suc fuel) itr (x ∷ xs) (y ∷ ys) h t =
      let s : Selects db c itr (x ∷ xs) (y ∷ ys) = Selects-both itr x y xs ys t in
      Outcome-selected fuel itr (x ∷ xs) (y ∷ ys) s
        (combined_next-Outcome fuel s.itr' s.xs' s.ys' (below_fuel s.smaller h) s.tracks)
