-- ===== src/Validator/Computed.antt =====
-- The computed writes: `calWriteSet` of state_based_validator.go.
pub mod Sums
pub mod Counts
pub mod Writes
use eloan_peer.Prelude.{
  ℕ, zero, suc, ◌+◌, ◌*◌, Bool, true, false, Option, none, some, List, [], ◌∷◌, ◌++◌, Result, ok,
  err, failed, panic, ◌>>=◌, ◌==◌, is_some, take, append_assoc, if◌then◌else◌, leb, ltb, codes,
  length, drop, ◌||◌,
}
use eloan_peer.Prelude.GoString.{GoString, has_prefix}
use eloan_peer.Prelude.Assoc.{Assoc, erase, insert}
use eloan_peer.Version.{Height}
use eloan_peer.StateDb.{
  UpdateBatch, VersionedValue, RListRef, lookup2, insert2, ns_or_new, get_or_create_ns_updates,
  get_or_create_ns_cals, get_or_create_ns_r_lists,
}
use eloan_peer.VersionedDb.{VersionedDb, or_nil}
use eloan_peer.Rwset.{KvWrite}
use eloan_peer.Strings.{index, slice_from, slice_to, split, equal_fold, replace}
use eloan_peer.Strconv.{Parsed, parse_int, format_int, add_int64, mul_int64}
use eloan_peer.RLists.{RLists}
use eloan_peer.Cache.{Cache, new_cache, get_item, set_item}
use eloan_peer.Validator.{cal_prefix, r_list_prefix}

-- `string(value)`
abbrev pub text_of : Option GoString → GoString
text_of none = []
text_of (some s) = s

-- `delete(mapUpdates, key)` on the map of a namespace, which exists.
unfoldable pub erase2 {ℓ} : {V : Type ℓ} → GoString → GoString → Assoc (Assoc V) → Assoc (Assoc V)
unfolding ns_or_new
erase2 ns key m = insert ns (erase key (ns_or_new ns m)) m

-- A text that does not parse counts as zero.
unfoldable pub int_or_zero : Option GoString → ℕ
int_or_zero value = let p = parse_int (text_of value) in if p.failed then 0 else p.value

-- Both tests of the method are made in turn.
unfoldable pub calculate : GoString → ℕ → ℕ → ℕ
calculate method param old =
    let sum = if equal_fold method (codes "ADD") then add_int64 old param else old in
    if equal_fold method (codes "MUL") then mul_int64 sum param else sum

abbrev pub zero_value : Option Height → VersionedValue
zero_value vh = record { value = some (codes "0"); version = vh }

abbrev pub or_else {ℓ} : {A : Type ℓ} → Option A → A → A
or_else none a = a
or_else (some b) a = b

-- What the loop over the writes changes: the batch, the lists, their cache and the number of times
-- the clock was read.
pub record Calc (lists : RLists) : Type 0 where
  pub updates : UpdateBatch
  pub store : lists.Store
  pub r_list_cache : Option (Cache RListRef)
  pub clock : ℕ

abbrev pub seconds : ℕ → ℕ
seconds n = n * 1000000000

abbrev pub r_count : GoString
r_count = codes "##RCOUNT##"

module _ (db : VersionedDb) where
  -- The value that a computation starts from: the pending one, the block's, or the committed one.
  unfoldable pub exist_value :
      GoString → GoString → Option Height → UpdateBatch → Result VersionedValue
  unfolding or_nil
  exist_value ns key vh updates = elim (lookup2 ns key updates.cals) [
    | some v ↦ ok v
    | none ↦ elim (lookup2 ns key updates.updates) [
      | some v ↦ ok v
      | none ↦ (do v ← or_nil (db.get_state ns key); ok (or_else v (zero_value vh)))
    ]
  ]

  unfoldable pub store_cal : GoString → GoString → VersionedValue → UpdateBatch → UpdateBatch
  unfolding erase2
  store_cal ns key v updates = record updates {
    cals = insert2 ns key v updates.cals;
    updates = erase2 ns key updates.updates;
  }

  -- One `__CAL_` write, `v_str` being the key behind the prefix.
  unfoldable pub cal_write :
      GoString → Option Height → GoString → Option GoString → UpdateBatch → Result UpdateBatch
  unfolding exist_value store_cal calculate int_or_zero
  cal_write ns vh v_str value updates = do
    cal_method ← slice_to 3 v_str
    params ← slice_from 4 v_str
    let key = (split b',' params).0
    let l_param = (parse_int (text_of value)).value
    old ← exist_value ns key vh updates
    let result = format_int (calculate cal_method l_param (int_or_zero old.value))
    ok (store_cal ns key (record { value = some result; version = old.version }) updates)

  -- The value that is counted; one that is not pending becomes so.
  unfoldable pub count_value :
      GoString → GoString → Option Height → UpdateBatch → Result (VersionedValue × UpdateBatch)
  unfolding or_nil
  count_value ns key vh updates = elim (lookup2 ns key updates.cals) [
    | some v ↦ ok (v, updates)
    | none ↦ (do
      v ← or_nil (db.get_state ns key)
      ok (
        or_else v (zero_value vh),
        record updates { cals = insert2 ns key (or_else v (zero_value vh)) updates.cals },
      ))
  ]

  -- The loop over the `##RCOUNT##` marks of a value: `rest` is what is still to be searched. `none`
  -- where the fuel ends before the loop.
  unfoldable pub count_loop :
      ℕ
      → GoString
      → Option Height
      → GoString
      → GoString
      → UpdateBatch
      → Result (Option (GoString × UpdateBatch))
  unfolding count_value int_or_zero
  count_loop zero ns vh rest value_str updates = ok none
  count_loop (suc fuel) ns vh rest value_str updates = elim (index rest r_count) [
    | none ↦ ok (some (value_str, updates))
    | some b_index ↦ elim (index (drop (b_index + 10) rest) r_count) [
      | none ↦ ok (some (value_str, updates))
      | some e_index ↦
          (let behind = drop (b_index + 10) rest in
            if e_index == 0 || ltb 64 e_index then ok (some (value_str, updates)) else (do
              p ← count_value ns (take e_index behind) vh updates
              count_loop fuel ns vh (drop (e_index + 10) behind)
                  (replace value_str (r_count ++ take e_index behind ++ r_count)
                    (format_int (int_or_zero p.0.value)))
                  p.1))
    ]
  ]

  -- The fuel of `count_write` lasts.
  unfoldable pub counted :
      KvWrite → Option (GoString × UpdateBatch) → Result (KvWrite × UpdateBatch)
  counted kv_write none = err panic
  counted kv_write (some p) = ok (record kv_write { value = some p.0 }, p.1)

  unfoldable pub count_write :
      GoString → Option Height → KvWrite → UpdateBatch → Result (KvWrite × UpdateBatch)
  unfolding count_loop
  count_write ns vh kv_write updates =
      let value_str = text_of kv_write.value in
      if is_some (index value_str r_count)
      then (do
        o ← count_loop (suc (length value_str)) ns vh value_str value_str updates
        counted kv_write o)
      else ok (kv_write, updates)

  unfoldable pub count_writes :
      GoString → Option Height → List KvWrite → UpdateBatch → Result (List KvWrite × UpdateBatch)
  unfolding count_write
  count_writes ns vh [] updates = ok ([], updates)
  count_writes ns vh (kv_write ∷ writes) updates = do
    p ← count_write ns vh kv_write updates
    q ← count_writes ns vh writes p.1
    ok (p.0 ∷ q.0, q.1)
