-- ===== src/CombinedIterator.antt =====
-- core/ledger/kvledger/txmgmt/validator/statebasedval/combined_iterator.go: the committed state and
-- the updates of the block, iterated as one.
pub mod Merge
pub mod Overlay
pub mod Lookup
pub mod Next
pub mod Outcome
pub mod Scan
pub mod View
pub mod Construct
use Prim.Native.Nat.{Ordering}
use eloan_peer.Prelude.{
  ℕ, zero, suc, Bool, true, false, not, ◌||◌, Option, none, some, Error, Result, ok, err, panic,
  ◌>>=◌, if◌then◌else◌,
}
use eloan_peer.Prelude.GoString.{GoString, str_eq, str_lt}
use eloan_peer.StateDb
use eloan_peer.StateDb.{UpdateBatch, VersionedValue, VersionedKv}
use eloan_peer.StateDb.Iterator.{Item, NsIterator, ns_next, get_range_scan_iterator}
use eloan_peer.VersionedDb.{VersionedDb}

-- `strings.Compare`, with -1, 0 and +1 as `lt`, `eq` and `gt`.
unfoldable pub compare_strings : GoString → GoString → Ordering
compare_strings s t =
    if str_eq s t then Ordering.eq else if str_lt s t then Ordering.lt else Ordering.gt

unfoldable pub compare_keys : Option VersionedKv → Option VersionedKv → Ordering
unfolding compare_strings
compare_keys none none = Ordering.eq
compare_keys none (some item2) = Ordering.gt
compare_keys (some item1) none = Ordering.lt
compare_keys (some item1) (some item2) = compare_strings item1.key item2.key

abbrev pub is_nil : Option GoString → Bool
is_nil none = true
is_nil (some v) = false

unfoldable pub is_delete : VersionedKv → Bool
is_delete item = is_nil item.value

module _ (db : VersionedDb) where
  pub record CombinedIterator : Type 0 where
    pub ns : GoString
    pub updates : UpdateBatch
    pub end_key : GoString
    pub include_end_key : Bool
    pub db_itr : db.Iter
    pub updates_itr : NsIterator
    pub db_item : Option VersionedKv
    pub updates_item : Option VersionedKv
    pub end_key_served : Bool

  unfoldable pub new_combined_iterator :
      UpdateBatch → GoString → GoString → GoString → Bool → Result CombinedIterator
  new_combined_iterator updates ns start_key end_key include_end_key = do
    db_itr ← db.get_state_range_scan_iterator ns start_key end_key
    let updates_itr = get_range_scan_iterator ns start_key end_key updates
    db_item ← (db.next db_itr).0
    updates_item ← (ns_next updates_itr).0
    ok (record {
      ns = ns;
      updates = updates;
      end_key = end_key;
      include_end_key = include_end_key;
      db_itr = (db.next db_itr).1;
      updates_itr = (ns_next updates_itr).1;
      db_item = db_item;
      updates_item = updates_item;
      end_key_served = false;
    })

  unfoldable pub served : CombinedIterator → CombinedIterator
  served itr = record itr { end_key_served = true }

  -- The item of the end key, unless it is missing or deleted.
  unfoldable pub end_key_item : GoString → GoString → Option VersionedValue → Option VersionedKv
  unfolding is_delete
  end_key_item ns key none = none
  end_key_item ns key (some vv) =
      let vkv : VersionedKv = record {
        namespace = ns;
        key = key;
        value = vv.value;
        version = vv.version;
      } in
      if is_delete vkv then none else some vkv

  unfoldable pub serve_state :
      CombinedIterator → Result (Option VersionedValue) → Item × CombinedIterator
  unfolding served end_key_item
  serve_state itr (err e) = (err e, itr)
  serve_state itr (ok vv) = (ok (end_key_item itr.ns itr.end_key vv), served itr)

  unfoldable pub serve_end_key : CombinedIterator → Option VersionedValue → Item × CombinedIterator
  unfolding serve_state
  serve_end_key itr none = serve_state itr (db.get_state itr.ns itr.end_key)
  serve_end_key itr (some vv) = serve_state itr (ok (some vv))

  unfoldable pub serve_end_key_if_needed : CombinedIterator → Item × CombinedIterator
  unfolding serve_end_key
  serve_end_key_if_needed itr =
      if not itr.include_end_key || itr.end_key_served
      then (ok none, itr)
      else serve_end_key itr (StateDb.get itr.ns itr.end_key itr.updates)

  -- `itr.dbItem, err = itr.dbItr.Next()`; an error leaves nil in the item.
  move_db_result : CombinedIterator → Item × db.Iter → Option Error × CombinedIterator
  move_db_result itr (ok item, it) = (none, record itr { db_itr = it; db_item = item })
  move_db_result itr (err e, it) = (some e, record itr { db_itr = it; db_item = none })

  unfoldable pub move_db_itr : CombinedIterator → Option Error × CombinedIterator
  unfolding move_db_result
  move_db_itr itr = move_db_result itr (db.next itr.db_itr)

  move_updates_result : CombinedIterator → Item × NsIterator → Option Error × CombinedIterator
  move_updates_result itr (ok item, it) =
      (none, record itr { updates_itr = it; updates_item = item })
  move_updates_result itr (err e, it) =
      (some e, record itr { updates_itr = it; updates_item = none })

  unfoldable pub move_updates_itr : CombinedIterator → Option Error × CombinedIterator
  unfolding move_updates_result
  move_updates_itr itr = move_updates_result itr (ns_next itr.updates_itr)

  -- One round of `Next`: it returns, or calls itself again behind a deleted item.
  pub data Round : Type 0 where
    return : Item × CombinedIterator → Round
    again : CombinedIterator → Round

  -- What follows the moves; `isDelete` of a nil item panics.
  unfoldable pub serve_selected : Option VersionedKv → Option Error × CombinedIterator → Round
  unfolding is_delete
  serve_selected selected (some e, itr) = return (err e, itr)
  serve_selected none (none, itr) = return (err panic, itr)
  serve_selected (some item) (none, itr) =
      if is_delete item then again itr else return (ok (some item), itr)

  move_both : Option Error × CombinedIterator → Option Error × CombinedIterator
  unfolding move_updates_itr
  move_both (some e, itr) = (some e, itr)
  move_both (none, itr) = move_updates_itr itr

  unfoldable pub select : Ordering → CombinedIterator → Round
  unfolding serve_selected move_db_itr move_updates_itr move_both
  select Ordering.lt itr = serve_selected itr.db_item (move_db_itr itr)
  select Ordering.eq itr = serve_selected itr.updates_item (move_both (move_db_itr itr))
  select Ordering.gt itr = serve_selected itr.updates_item (move_updates_itr itr)

  unfoldable pub round_at : Option VersionedKv → Option VersionedKv → CombinedIterator → Round
  unfolding select
  round_at none none itr = return (serve_end_key_if_needed itr)
  round_at none (some u) itr = select (compare_keys none (some u)) itr
  round_at (some d) u itr = select (compare_keys (some d) u) itr

  unfoldable pub round : CombinedIterator → Round
  unfolding round_at
  round itr = round_at itr.db_item itr.updates_item itr

  -- `Next`: the fuel bounds the depth of its recursion, and its end is an overflow of the stack.
  unfoldable pub combined_next : ℕ → CombinedIterator → Item × CombinedIterator
  combined_next zero itr = (err panic, itr)
  combined_next (suc fuel) itr = elim (round itr) [
    | return r ↦ r
    | again itr' ↦ combined_next fuel itr'
  ]
