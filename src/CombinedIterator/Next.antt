-- ===== src/CombinedIterator/Next.antt =====
-- `Next` of the combined iterator gives the merge of what the two iterators have left.
use Prim.Native.Nat.{Ordering}
use mathlib.Core.Path.{ap₂}
use eloan_peer.Prelude.{
  ◌+◌, ◌<◌, ◌≡◌, refl, ◌∙◌, Bool, Option, none, some, List, [], ◌∷◌, arith, ok, length, err, ap,
}
use eloan_peer.Prelude.GoString.{GoString}
use eloan_peer.StateDb.{VersionedKv, UpdateBatch}
use eloan_peer.StateDb.Iterator.{Item, NsIterator, ns_next, Yields}
use eloan_peer.VersionedDb.{VersionedDb}
use eloan_peer.CombinedIterator.{
  CombinedIterator, round, serve_selected, move_db_itr, move_updates_itr, select, move_db_result,
  move_updates_result, move_both, round_at,
}
use eloan_peer.CombinedIterator.Merge.{keep, merge}

-- The item read ahead from an iterator that has the list left.
abbrev pub Ahead :
    {S : Type 0} → (S → Item × S) → List VersionedKv → Option VersionedKv → S → Type 0
Ahead next [] item it = item ≡ none
Ahead next (x ∷ xs) item it = (item ≡ some x) × Yields next xs it

abbrev pub head_item : List VersionedKv → Option VersionedKv
head_item [] = none
head_item (x ∷ xs) = some x

-- One more call of `Next` on an iterator.
pub next-Ahead :
    {S : Type 0} (next : S → Item × S) (xs : List VersionedKv) (it : S)
    → Yields next xs it
    → ((next it).0 ≡ ok (head_item xs)) × Ahead next xs (head_item xs) (next it).1
next-Ahead next [] it y = (y, refl)
next-Ahead next (x ∷ xs) it y = (y.0, (refl, y.1))

module _ (db : VersionedDb) where
  -- What no call of `Next` changes before the end key is served.
  pub record Input : Type 0 where
    pub ns : GoString
    pub updates : UpdateBatch
    pub end_key : GoString
    pub include_end_key : Bool
    pub end_key_served : Bool

  abbrev pub input_of : CombinedIterator db → Input
  input_of itr = record {
    ns = itr.ns;
    updates = itr.updates;
    end_key = itr.end_key;
    include_end_key = itr.include_end_key;
    end_key_served = itr.end_key_served;
  }

  -- The iterator has `xs` of the database and `ys` of the updates left.
  pub record Tracks (c : Input) (itr : CombinedIterator db) (xs ys : List VersionedKv)
      : Type 0 where
    pub from_db : Ahead db.next xs itr.db_item itr.db_itr
    pub from_updates : Ahead ns_next ys itr.updates_item itr.updates_itr
    pub input : input_of itr ≡ c

  move_db_result-ok :
      (itr : CombinedIterator db) (p : Item × db.Iter) (item : Option VersionedKv)
      → p.0 ≡ ok item
      → move_db_result db itr p ≡ (none, record itr { db_itr = p.1; db_item = item })
  unfolding move_db_result
  move_db_result-ok itr (ok i, it) item e = cc
  move_db_result-ok itr (err x, it) item e = cc

  move_updates_result-ok :
      (itr : CombinedIterator db) (p : Item × NsIterator) (item : Option VersionedKv)
      → p.0 ≡ ok item
      → move_updates_result db itr p ≡ (none, record itr { updates_itr = p.1; updates_item = item })
  unfolding move_updates_result
  move_updates_result-ok itr (ok i, it) item e = cc
  move_updates_result-ok itr (err x, it) item e = cc

  move_db_lem :
      (c : Input) (itr : CombinedIterator db) (x : VersionedKv) (xs ys : List VersionedKv)
      → Tracks c itr (x ∷ xs) ys
      → (itr' : CombinedIterator db) × (move_db_itr db itr ≡ (none, itr')) × Tracks c itr' xs ys
  unfolding move_db_itr
  move_db_lem c itr x xs ys t =
      let (got, left) = next-Ahead db.next xs itr.db_itr t.from_db.1 in
      (
        record itr { db_itr = (db.next itr.db_itr).1; db_item = head_item xs },
        move_db_result-ok itr (db.next itr.db_itr) (head_item xs) got,
        record { from_db = left; from_updates = t.from_updates; input = t.input },
      )

  move_updates_lem :
      (c : Input) (itr : CombinedIterator db) (y : VersionedKv) (xs ys : List VersionedKv)
      → Tracks c itr xs (y ∷ ys)
      → (itr' : CombinedIterator db) × (move_updates_itr db itr ≡ (none, itr'))
        × Tracks c itr' xs ys
  unfolding move_updates_itr
  move_updates_lem c itr y xs ys t =
      let (got, left) = next-Ahead ns_next ys itr.updates_itr t.from_updates.1 in
      (
        record itr { updates_itr = (ns_next itr.updates_itr).1; updates_item = head_item ys },
        move_updates_result-ok itr (ns_next itr.updates_itr) (head_item ys) got,
        record { from_db = t.from_db; from_updates = left; input = t.input },
      )

  pub round_at-eq :
      (itr : CombinedIterator db) (d u : Option VersionedKv)
      → itr.db_item ≡ d
      → itr.updates_item ≡ u
      → round db itr ≡ round_at db d u itr
  unfolding round
  round_at-eq itr d u p q = ap₂ (λ a b. round_at db a b itr) p q

  -- A round selects the item `z` and leaves `xs'` and `ys'`.
  pub record Selects (c : Input) (itr : CombinedIterator db) (xs ys : List VersionedKv)
      : Type 0 where
    pub z : VersionedKv
    pub xs' : List VersionedKv
    pub ys' : List VersionedKv
    pub itr' : CombinedIterator db
    pub selected : round db itr ≡ serve_selected db (some z) (none, itr')
    pub merged : merge xs ys ≡ keep z (merge xs' ys')
    pub tracks : Tracks c itr' xs' ys'
    pub smaller : length xs' + length ys' < length xs + length ys

  pub select-db :
      (c : Input) (itr : CombinedIterator db) (x : VersionedKv) (xs ys : List VersionedKv)
      → Tracks c itr (x ∷ xs) ys
      → round db itr ≡ select db Ordering.lt itr
      → merge (x ∷ xs) ys ≡ keep x (merge xs ys)
      → Selects c itr (x ∷ xs) ys
  unfolding select
  select-db c itr x xs ys t r m =
      let (itr', moved, t') = move_db_lem c itr x xs ys t in
      record {
        z = x;
        xs' = xs;
        ys' = ys;
        itr' = itr';
        selected = r ∙ ap₂ (serve_selected db) t.from_db.0 moved;
        merged = m;
        tracks = t';
        smaller = omega arith;
      }

  pub select_updates :
      (c : Input) (itr : CombinedIterator db) (y : VersionedKv) (xs ys : List VersionedKv)
      → Tracks c itr xs (y ∷ ys)
      → round db itr ≡ select db Ordering.gt itr
      → merge xs (y ∷ ys) ≡ keep y (merge xs ys)
      → Selects c itr xs (y ∷ ys)
  unfolding select
  select_updates c itr y xs ys t r m =
      let (itr', moved, t') = move_updates_lem c itr y xs ys t in
      record {
        z = y;
        xs' = xs;
        ys' = ys;
        itr' = itr';
        selected = r ∙ ap₂ (serve_selected db) t.from_updates.0 moved;
        merged = m;
        tracks = t';
        smaller = omega arith;
      }

  pub select_both :
      (c : Input) (itr : CombinedIterator db) (x y : VersionedKv) (xs ys : List VersionedKv)
      → Tracks c itr (x ∷ xs) (y ∷ ys)
      → round db itr ≡ select db Ordering.eq itr
      → merge (x ∷ xs) (y ∷ ys) ≡ keep y (merge xs ys)
      → Selects c itr (x ∷ xs) (y ∷ ys)
  unfolding select move_both
  select_both c itr x y xs ys t r m =
      let (itr1, moved1, t1) = move_db_lem c itr x xs (y ∷ ys) t in
      let (itr2, moved2, t2) = move_updates_lem c itr1 y xs ys t1 in
      record {
        z = y;
        xs' = xs;
        ys' = ys;
        itr' = itr2;
        selected = r ∙ ap₂ (serve_selected db) t.from_updates.0 (ap (move_both db) moved1 ∙ moved2);
        merged = m;
        tracks = t2;
        smaller = omega arith;
      }
