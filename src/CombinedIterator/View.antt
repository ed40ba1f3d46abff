-- ===== src/CombinedIterator/View.antt =====
-- What a client of the combined iterator sees: the range as it would be after the block's updates.
use mathlib.Core.Path.{subst, ap₂}
use eloan_peer.Prelude.{
  ◌≡◌, refl, sym, ◌∙◌, Bool, true, false, ◌&&◌, ◌||◌, Option, none, some, List, [], ◌∷◌, ◌++◌,
  arith, All, if◌then◌else◌, Bool-cases, inl, inr, ◌⊎◌, ap, is_some, append-nil,
}
use eloan_peer.Prelude.GoString.{GoString, str_eq, str_lt, str_eq_iff, str_eq→≡}
use eloan_peer.StateDb
use eloan_peer.StateDb.{VersionedKv, VersionedValue, UpdateBatch}
use eloan_peer.StateDb.Sort.{Above}
use eloan_peer.StateDb.Iterator.{in_range, is_empty}
use eloan_peer.StateDb.Iterator.Range.{find_kv, key_list, to_item, IsScan}
use eloan_peer.VersionedDb.{VersionedDb, Represents}
use eloan_peer.CombinedIterator.{end_key_item}
use eloan_peer.CombinedIterator.Merge.{merge, live_item, first_some}
use eloan_peer.CombinedIterator.Overlay.{IncreasingKv, Increasing-merge}
use eloan_peer.CombinedIterator.Lookup.{find_kv-merge}
use eloan_peer.CombinedIterator.Scan.{overlay_value, option_list, end_items}

-- `start ≤ key < end`, or the end key itself where it is included.
abbrev pub in_window : GoString → GoString → Bool → GoString → Bool
in_window start_key end_key include_end_key k =
    in_range start_key end_key k || (include_end_key && str_eq end_key k)

-- The items `zs` are the live values of the window after the updates, once each in key order.
pub record IsOverlay (ns start_key end_key : GoString) (include_end_key : Bool)
    (committed : GoString → Option VersionedValue) (batch : UpdateBatch) (zs : List VersionedKv)
    : Type 0 where
  pub increasing : IncreasingKv zs
  pub finds :
      (k : GoString)
      → find_kv k zs ≡ (
          if in_window start_key end_key include_end_key k
          then live_item (to_item ns k (overlay_value (StateDb.get ns k batch) (committed k)))
          else none)

find_kv-append :
    (k : GoString) (xs ys : List VersionedKv)
    → find_kv k (xs ++ ys) ≡ first_some (find_kv k xs) (find_kv k ys)
unfolding find_kv
find_kv-append k [] ys = refl
find_kv-append k (x ∷ xs) ys = ground (arith, find_kv-append k xs ys)

end_key_item-live_item :
    (db : VersionedDb) (ns key : GoString) (o : Option VersionedValue)
    → end_key_item db ns key o ≡ live_item (to_item ns key o)
unfolding end_key_item live_item
end_key_item-live_item db ns key none = refl
end_key_item-live_item db ns key (some vv) = refl

live_item-key :
    (ns key : GoString) (o : Option VersionedValue) (x : VersionedKv)
    → live_item (to_item ns key o) ≡ some x
    → x.key ≡ key
unfolding live_item
live_item-key ns key none x e = cc
live_item-key ns key (some vv) x e = ground arith

find_kv-option_list :
    (ns key k : GoString) (o : Option VersionedValue)
    → find_kv k (option_list (live_item (to_item ns key o)))
      ≡ (if str_eq key k then live_item (to_item ns key o) else none)
unfolding find_kv live_item
find_kv-option_list ns key k none = ground arith
find_kv-option_list ns key k (some vv) = ground arith

-- Both sides restricted to a range, then overlaid.
overlaid_in_range :
    (ns k : GoString) (r : Bool) (u d : Option VersionedValue)
    → live_item
        (first_some (if r then to_item ns k u else none) (if r then to_item ns k d else none))
      ≡ (if r then live_item (to_item ns k (overlay_value u d)) else none)
unfolding live_item
overlaid_in_range ns k true none d = refl
overlaid_in_range ns k true (some u) d = refl
overlaid_in_range ns k false u d = refl

All-of_find_kv :
    (P : GoString → Type 0) (xs : List VersionedKv)
    → ((k : GoString) → is_some (find_kv k xs) ≡ true → P k)
    → All P (key_list xs)
unfolding find_kv
All-of_find_kv P [] h = tt
All-of_find_kv P (x ∷ xs) h = (
  h x.key (ground (arith, str_eq_iff x.key x.key)),
  All-of_find_kv P xs (λ k e. h k (ground arith)),
)

Increasing-snoc :
    (x : VersionedKv) (xs : List VersionedKv)
    → IncreasingKv xs
    → All (λ k. str_lt k x.key ≡ true) (key_list xs)
    → IncreasingKv (xs ++ x ∷ [])
Increasing-snoc x [] h a = (tt, tt)
Increasing-snoc x (y ∷ ys) h a = (Above-snoc ys h.0 a.0, Increasing-snoc x ys h.1 a.1)
  where
    Above-snoc :
        (zs : List VersionedKv)
        → Above y.key (key_list zs)
        → str_lt y.key x.key ≡ true
        → Above y.key (key_list (zs ++ x ∷ []))
    Above-snoc [] b l = (l, tt)
    Above-snoc (z ∷ zs) b l = (b.0, Above-snoc zs b.1 l)

module _ (db : VersionedDb) (at : GoString → GoString → Option VersionedValue)
    (rep : Represents db at) (updates : UpdateBatch) (ns start_key end_key : GoString)
    (include_end_key : Bool) where
  module _ (xs ys : List VersionedKv) (sx : IsScan ns start_key end_key (at ns) xs)
      (sy : IsScan ns start_key end_key (λ k. StateDb.get ns k updates) ys) where
    find_kv-window :
        (k : GoString)
        → find_kv k (merge xs ys) ≡ (
            if in_range start_key end_key k
            then live_item (to_item ns k (overlay_value (StateDb.get ns k updates) (at ns k)))
            else none)
    find_kv-window k =
        find_kv-merge k xs ys sx.increasing sy.increasing
        ∙ ap₂ (λ a b. live_item (first_some a b)) (sy.finds k) (sx.finds k)
        ∙ overlaid_in_range ns k (in_range start_key end_key k) (StateDb.get ns k updates) (at ns k)

    window_below_end :
        is_empty end_key ≡ false → All (λ k. str_lt k end_key ≡ true) (key_list (merge xs ys))
    unfolding in_range
    window_below_end h =
        All-of_find_kv (λ k. str_lt k end_key ≡ true) (merge xs ys)
          λ k e. ground (arith, find_kv-window k)

  -- The overlaid live item of a key.
  abbrev pub window_item : GoString → Option VersionedKv
  window_item k = live_item (to_item ns k (overlay_value (StateDb.get ns k updates) (at ns k)))

  abbrev pub window_tail : Bool → List VersionedKv
  window_tail b = if b then option_list (window_item end_key) else []

  find_kv-window_tail :
      (k : GoString) (b : Bool)
      → find_kv k (window_tail b) ≡ (if b && str_eq end_key k then window_item k else none)
  unfolding find_kv
  find_kv-window_tail k false = refl
  find_kv-window_tail k true =
      find_kv-option_list ns end_key k
        (overlay_value (StateDb.get ns end_key updates) (at ns end_key))
      ∙ same_item (Bool-cases (str_eq end_key k))
    where
      same_item :
          (str_eq end_key k ≡ true) ⊎ (str_eq end_key k ≡ false)
          → (if str_eq end_key k then window_item end_key else none)
            ≡ (if str_eq end_key k then window_item k else none)
      same_item (inl e) =
          ap (λ j. if str_eq end_key k then window_item j else none) (str_eq→≡ end_key k e)
      same_item (inr e) = rw e

  window_or :
      (r t : Bool) (o : Option VersionedKv)
      → first_some (if r then o else none) (if t then o else none) ≡ (if r || t then o else none)
  window_or true true none = refl
  window_or true true (some x) = refl
  window_or true false none = refl
  window_or true false (some x) = refl
  window_or false t o = refl

  module _ (xs ys : List VersionedKv) (sx : IsScan ns start_key end_key (at ns) xs)
      (sy : IsScan ns start_key end_key (λ k. StateDb.get ns k updates) ys) where
    Increasing-window :
        (b : Bool)
        → (b ≡ true → is_empty end_key ≡ false)
        → IncreasingKv (merge xs ys ++ window_tail b)
    Increasing-window false h =
        subst IncreasingKv (sym (append-nil (merge xs ys)))
          (Increasing-merge xs ys sx.increasing sy.increasing)
    Increasing-window true h =
        go (window_item end_key) (
          live_item-key ns end_key (overlay_value (StateDb.get ns end_key updates) (at ns end_key)))
      where
        go :
            (o : Option VersionedKv)
            → ((x : VersionedKv) → o ≡ some x → x.key ≡ end_key)
            → IncreasingKv (merge xs ys ++ option_list o)
        go none k =
            subst IncreasingKv (sym (append-nil (merge xs ys)))
              (Increasing-merge xs ys sx.increasing sy.increasing)
        go (some x) k =
            Increasing-snoc x (merge xs ys) (Increasing-merge xs ys sx.increasing sy.increasing) (
              subst (λ e. All (λ j. str_lt j e ≡ true) (key_list (merge xs ys))) (sym (k x refl))
                (window_below_end xs ys sx sy (h refl)))

    pub window-IsOverlay :
        (include_end_key ≡ true → is_empty end_key ≡ false)
        → IsOverlay ns start_key end_key include_end_key
            (at ns)
            updates
            (merge xs ys ++ window_tail include_end_key)
    window-IsOverlay h = record {
      increasing = Increasing-window include_end_key h;
      finds = λ k.
          find_kv-append k (merge xs ys) (window_tail include_end_key)
          ∙ ap₂ first_some (find_kv-window xs ys sx sy k) (find_kv-window_tail k include_end_key)
          ∙ window_or (in_range start_key end_key k) (include_end_key && str_eq end_key k)
              (window_item k);
    }

  pub end_items-window_tail :
      end_items db at rep (record {
        ns = ns;
        updates = updates;
        end_key = end_key;
        include_end_key = include_end_key;
        end_key_served = false;
      })
      ≡ window_tail include_end_key
  end_items-window_tail =
      ap (λ o. if include_end_key then option_list o else [])
        (end_key_item-live_item db ns end_key
          (overlay_value (StateDb.get ns end_key updates) (at ns end_key)))
