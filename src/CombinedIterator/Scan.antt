-- ===== src/CombinedIterator/Scan.antt =====
-- A combined iterator, from its construction to its end, gives the overlay of the batch over the
-- committed state in the range, with the end key where it is included.
use mathlib.Core.Path.{subst, subst₂, ap₂}
use eloan_peer.Prelude.{
  ℕ, zero, suc, ◌+◌, ◌<◌, ◌≡◌, refl, sym, ◌∙◌, Bool, true, false, not, ◌||◌, Option, none, some,
  List, [], ◌∷◌, ◌++◌, arith, if◌then◌else◌, ok, length, ap,
}
use eloan_peer.Prelude.GoString.{GoString}
use eloan_peer.StateDb
use eloan_peer.StateDb.{VersionedKv, VersionedValue, UpdateBatch}
use eloan_peer.StateDb.Iterator.{Item, Yields}
use eloan_peer.VersionedDb.{VersionedDb, Represents}
use eloan_peer.CombinedIterator.{
  CombinedIterator, round_at, combined_next, serve_end_key_if_needed, end_key_item, serve_state,
  serve_end_key, served,
}
use eloan_peer.CombinedIterator.Merge.{merge}
use eloan_peer.CombinedIterator.Next.{Input, input_of, Tracks, round_at-eq}
use eloan_peer.CombinedIterator.Outcome.{
  Outcome, ended, gave, combined_next-Outcome, combined_next-return,
}

-- The value of a key in the batch, or else the committed one.
abbrev pub overlay_value : Option VersionedValue → Option VersionedValue → Option VersionedValue
overlay_value none committed = committed
overlay_value (some vv) committed = some vv

abbrev pub option_list : Option VersionedKv → List VersionedKv
option_list none = []
option_list (some x) = x ∷ []

module _ (db : VersionedDb) (at : GoString → GoString → Option VersionedValue)
    (rep : Represents db at) where
  -- What is served behind the two iterators.
  abbrev pub end_items : Input db → List VersionedKv
  end_items c =
      if c.include_end_key
      then option_list (
          end_key_item db c.ns c.end_key
            (overlay_value (StateDb.get c.ns c.end_key c.updates) (at c.ns c.end_key)))
      else []

  serve_end_key_lem :
      (itr : CombinedIterator db) (o : Option VersionedValue)
      → serve_end_key db itr o ≡ (
        ok (end_key_item db itr.ns itr.end_key (overlay_value o (at itr.ns itr.end_key))),
        served db itr,
      )
  unfolding serve_end_key serve_state
  serve_end_key_lem itr none = rw (rep.state itr.ns itr.end_key)
  serve_end_key_lem itr (some vv) = refl

  -- What a call that returned `r` and the calls behind it give.
  abbrev GivesAll : ℕ → List VersionedKv → Item × CombinedIterator db → Type 0
  GivesAll fuel [] r = r.0 ≡ ok none
  GivesAll fuel (x ∷ xs) r = (r.0 ≡ ok (some x)) × Yields (combined_next db fuel) xs r.1

  serve-served :
      (itr : CombinedIterator db) → (serve_end_key_if_needed db (served db itr)).0 ≡ ok none
  unfolding serve_end_key_if_needed served
  serve-served itr = ground arith

  served_ends :
      (fuel : ℕ) (itr : CombinedIterator db)
      → 0 < fuel
      → itr.db_item ≡ none
      → itr.updates_item ≡ none
      → (combined_next db fuel (served db itr)).0 ≡ ok none
  served_ends zero itr h d u = absurd (omega arith)
  served_ends (suc fuel) itr h d u =
      ap (λ r. r.0)
        (combined_next-return db (input_of db itr) fuel (served db itr)
          (serve_end_key_if_needed db (served db itr))
          (round_at-eq db (served db itr) none none (unfold served in d) (unfold served in u)
            ∙ unfold round_at in refl))
      ∙ serve-served itr

  GivesAll-option_list :
      (fuel : ℕ) (itr : CombinedIterator db) (o : Option VersionedKv)
      → 0 < fuel
      → itr.db_item ≡ none
      → itr.updates_item ≡ none
      → GivesAll fuel (option_list o) (ok o, served db itr)
  GivesAll-option_list fuel itr none h d u = refl
  GivesAll-option_list fuel itr (some x) h d u = (refl, served_ends fuel itr h d u)

  serve-not_included :
      (itr : CombinedIterator db)
      → itr.include_end_key ≡ false
      → serve_end_key_if_needed db itr ≡ (ok none, itr)
  unfolding serve_end_key_if_needed
  serve-not_included itr e =
      ap
        (λ b.
          if not b || itr.end_key_served
          then (ok none, itr)
          else serve_end_key db itr (StateDb.get itr.ns itr.end_key itr.updates))
        e

  serve-included :
      (itr : CombinedIterator db)
      → itr.include_end_key ≡ true
      → itr.end_key_served ≡ false
      → serve_end_key_if_needed db itr
        ≡ serve_end_key db itr (StateDb.get itr.ns itr.end_key itr.updates)
  unfolding serve_end_key_if_needed
  serve-included itr e n =
      ap₂
        (λ b c.
          if not b || c
          then (ok none, itr)
          else serve_end_key db itr (StateDb.get itr.ns itr.end_key itr.updates))
        e n

  end_items-included :
      (itr : CombinedIterator db) (b : Bool)
      → itr.include_end_key ≡ b
      → end_items (input_of db itr) ≡ (
          if b
          then option_list (
              end_key_item db itr.ns itr.end_key (
                overlay_value (StateDb.get itr.ns itr.end_key itr.updates) (at itr.ns itr.end_key)))
          else [])
  end_items-included itr b e =
      ap
        (λ c.
          if c
          then option_list (
              end_key_item db itr.ns itr.end_key (
                overlay_value (StateDb.get itr.ns itr.end_key itr.updates) (at itr.ns itr.end_key)))
          else [])
        e

  serve-GivesAll :
      (fuel : ℕ) (itr : CombinedIterator db) (b : Bool)
      → 0 < fuel
      → itr.db_item ≡ none
      → itr.updates_item ≡ none
      → itr.end_key_served ≡ false
      → itr.include_end_key ≡ b
      → GivesAll fuel (end_items (input_of db itr)) (serve_end_key_if_needed db itr)
  serve-GivesAll fuel itr false h d u n e =
      subst₂ (GivesAll fuel) (sym (end_items-included itr false e)) (sym (serve-not_included itr e))
        refl
  serve-GivesAll fuel itr true h d u n e =
      subst₂ (GivesAll fuel) (sym (end_items-included itr true e))
        (sym (
          serve-included itr e n
          ∙ serve_end_key_lem itr (StateDb.get itr.ns itr.end_key itr.updates)))
        (GivesAll-option_list fuel itr _ h d u)

  GivesAll→Yields :
      (fuel : ℕ) (xs : List VersionedKv) (itr : CombinedIterator db)
      → GivesAll fuel xs (combined_next db fuel itr)
      → Yields (combined_next db fuel) xs itr
  GivesAll→Yields fuel [] itr g = g
  GivesAll→Yields fuel (x ∷ xs) itr g = g

  module _ (fuel : ℕ) (c : Input db) (fresh : c.end_key_served ≡ false) where
    ended-GivesAll :
        (itr' : CombinedIterator db) (r : Item × CombinedIterator db)
        → 0 < fuel
        → r ≡ serve_end_key_if_needed db itr'
        → Tracks db c itr' [] []
        → GivesAll fuel (end_items c) r
    ended-GivesAll itr' r h q t = subst₂ (GivesAll fuel) (ap end_items t.input) (sym q) (
        serve-GivesAll fuel itr' itr'.include_end_key h t.from_db t.from_updates
          (ap (λ (i : Input db). i.end_key_served) t.input ∙ fresh) refl)

    Outcome-GivesAll :
        (n : ℕ)
        → ((itr : CombinedIterator db) (xs ys : List VersionedKv)
            → length xs + length ys < n
            → length xs + length ys < fuel
            → Tracks db c itr xs ys
            → Yields (combined_next db fuel) (merge xs ys ++ end_items c) itr)
        → (xs ys : List VersionedKv) (r : Item × CombinedIterator db)
        → length xs + length ys < suc n
        → length xs + length ys < fuel
        → Outcome db c xs ys r
        → GivesAll fuel (merge xs ys ++ end_items c) r
    Outcome-GivesAll n ih xs ys r b h (ended itr' q m t) =
        subst (λ l. GivesAll fuel (l ++ end_items c) r) (sym m)
          (ended-GivesAll itr' r (omega arith) q t)
    Outcome-GivesAll n ih xs ys r b h (gave z xs' ys' itr' q m t lt) =
        subst₂ (λ l s. GivesAll fuel (l ++ end_items c) s) (sym m) (sym q)
          (refl, ih itr' xs' ys' (omega arith) (omega arith) t)

    -- From a state with `xs` and `ys` left, the calls of `Next` give their merge and the end key.
    pub combined_next-Yields :
        (n : ℕ) (itr : CombinedIterator db) (xs ys : List VersionedKv)
        → length xs + length ys < n
        → length xs + length ys < fuel
        → Tracks db c itr xs ys
        → Yields (combined_next db fuel) (merge xs ys ++ end_items c) itr
    combined_next-Yields zero itr xs ys b h t = absurd (omega arith)
    combined_next-Yields (suc n) itr xs ys b h t =
        GivesAll→Yields fuel (merge xs ys ++ end_items c) itr (
          Outcome-GivesAll n (combined_next-Yields n) xs ys (combined_next db fuel itr) b h
            (combined_next-Outcome db c fuel itr xs ys h t))
