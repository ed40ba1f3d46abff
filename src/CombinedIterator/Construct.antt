-- ===== src/CombinedIterator/Construct.antt =====
-- The combined iterator from its construction to its end.
use mathlib.Core.Path.{subst}
use eloan_peer.Prelude.{
  ℕ, suc, ◌+◌, ◌<◌, ◌≡◌, refl, Bool, true, false, Option, List, ◌++◌, arith, ok, length,
}
use eloan_peer.Prelude.GoString.{GoString}
use eloan_peer.StateDb.{VersionedKv, VersionedValue, UpdateBatch}
use eloan_peer.StateDb.Wf.{IsWf}
use eloan_peer.StateDb.RangeScan.{get_range_scan_iterator-IsScan}
use eloan_peer.StateDb.Iterator.{ns_next, Yields, is_empty, get_range_scan_iterator}
use eloan_peer.VersionedDb.{VersionedDb, Represents}
use eloan_peer.CombinedIterator.{CombinedIterator, new_combined_iterator, combined_next}
use eloan_peer.CombinedIterator.Merge.{merge}
use eloan_peer.CombinedIterator.Next.{head_item, next-Ahead}
use eloan_peer.CombinedIterator.Scan.{combined_next-Yields}
use eloan_peer.CombinedIterator.View.{
  IsOverlay, window_tail, window-IsOverlay, end_items-window_tail,
}

module _ (db : VersionedDb) (at : GoString → GoString → Option VersionedValue)
    (rep : Represents db at) (updates : UpdateBatch) (ns start_key end_key : GoString)
    (include_end_key : Bool) where
  -- The iterator over `it` and the updates, with one item of each read ahead.
  abbrev primed : db.Iter → List VersionedKv → List VersionedKv → CombinedIterator db
  primed it xs ys = record {
    ns = ns;
    updates = updates;
    end_key = end_key;
    include_end_key = include_end_key;
    db_itr = (db.next it).1;
    updates_itr = (ns_next (get_range_scan_iterator ns start_key end_key updates)).1;
    db_item = head_item xs;
    updates_item = head_item ys;
    end_key_served = false;
  }

  new_combined_iterator-ok :
      (it : db.Iter) (xs ys : List VersionedKv)
      → db.get_state_range_scan_iterator ns start_key end_key ≡ ok it
      → (db.next it).0 ≡ ok (head_item xs)
      → (ns_next (get_range_scan_iterator ns start_key end_key updates)).0 ≡ ok (head_item ys)
      → new_combined_iterator db updates ns start_key end_key include_end_key ≡ ok (primed it xs ys)
  unfolding new_combined_iterator
  new_combined_iterator-ok it xs ys a b c = rw a (rw b (rw c refl))

  primed-Yields :
      (fuel : ℕ) (it : db.Iter) (xs ys : List VersionedKv)
      → Yields db.next xs it
      → Yields ns_next ys (get_range_scan_iterator ns start_key end_key updates)
      → length xs + length ys < fuel
      → Yields
          (combined_next db fuel)
          (merge xs ys
            ++ window_tail db at rep updates ns start_key end_key include_end_key include_end_key)
          (primed it xs ys)
  primed-Yields fuel it xs ys yx yy h =
      subst (λ l. Yields (combined_next db fuel) (merge xs ys ++ l) (primed it xs ys))
        (end_items-window_tail db at rep updates ns start_key end_key include_end_key)
        (combined_next-Yields db at rep fuel _ refl (suc (length xs + length ys)) (primed it xs ys)
          xs ys (omega arith) h
          (record {
            from_db = (next-Ahead db.next xs it yx).1;
            from_updates =
                (next-Ahead ns_next ys (get_range_scan_iterator ns start_key end_key updates) yy).1;
            input = refl;
          }))

  -- Over a database that answers from the state `at` and a well-formed batch, and with an end key
  -- that is not empty where it is included, a combined iterator is built, and with enough fuel its
  -- calls of `Next` give, in key order and each once, the items of the range (and of the included
  -- end key) that are live after the batch is laid over the state; then it ends.
  pub new_combined_iterator-IsOverlay :
      IsWf updates
      → (include_end_key ≡ true → is_empty end_key ≡ false)
      → (itr : CombinedIterator db) × (zs : List VersionedKv) × (bound : ℕ) × (new_combined_iterator
            db updates ns start_key end_key include_end_key
          ≡ ok itr)
        × ((fuel : ℕ) → bound < fuel → Yields (combined_next db fuel) zs itr)
        × IsOverlay ns start_key end_key include_end_key (at ns) updates zs
  new_combined_iterator-IsOverlay wf h =
      let (it, xs, found, yx, sx) = rep.scan ns start_key end_key in
      let (ys, yy, sy) = get_range_scan_iterator-IsScan ns start_key end_key updates wf in
      (
        primed it xs ys,
        merge xs ys
            ++ window_tail db at rep updates ns start_key end_key include_end_key include_end_key,
        length xs + length ys,
        new_combined_iterator-ok it xs ys found (next-Ahead db.next xs it yx).0
            (next-Ahead ns_next ys _ yy).0,
        λ fuel b. primed-Yields fuel it xs ys yx yy b,
        window-IsOverlay db at rep updates ns start_key end_key include_end_key xs ys sx sy h,
      )
