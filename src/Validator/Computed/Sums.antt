-- ===== src/Validator/Computed/Sums.antt =====
-- What a `__CAL_` write leaves: the computed number, pending for its key.

use eloan_peer.Prelude.{
  ℕ, ◌≤◌, ◌<◌, ◌+◌, ◌*◌, ◌%◌, ◌^◌, ◌≡◌, ◌⊎◌, refl, ◌∙◌, true, false, ◌&&◌, Option, none, some, [],
  ◌∷◌, ok, ◌>>=◌, >>=-eq-ok, codes, if◌then◌else◌, leb, length, take, drop, arith, Bool-cases,
  Option-cases, inl, inr,
}
use eloan_peer.Prelude.GoString.{GoString, str_eq, str_eq_refl, str_eq→≡}
use eloan_peer.Prelude.Assoc.{Assoc, lookup-erase, erase, insert}
use eloan_peer.Version.{Height}
use eloan_peer.StateDb
use eloan_peer.StateDb.{UpdateBatch, VersionedValue, lookup2, insert2, ns_or_new}
use eloan_peer.StateDb.Batch.{lookup2-insert2, lookup2-ns_or_new, ns_or_new-insert}
use eloan_peer.VersionedDb.{VersionedDb, or_nil}
use eloan_peer.Strings.{split, slice_to, slice_from, equal_fold}
use eloan_peer.Strconv.{u64_mod, parse_int, format_int, add_int64, mul_int64}
use eloan_peer.Strconv.RoundTrip.{parse_int-format_int, parse_int_bounded}
use eloan_peer.Validator.Computed.{
  text_of, int_or_zero, calculate, exist_value, store_cal, cal_write, erase2, or_else, zero_value,
}

pub lookup2-erase2 {ℓ} :
    {V : Type ℓ} (ns key ns' key' : GoString) (m : Assoc (Assoc V))
    → lookup2 ns' key' (erase2 ns key m)
      ≡ (if str_eq ns ns' && str_eq key key' then none else lookup2 ns' key' m)
unfolding erase2
lookup2-erase2 ns key ns' key' m = elim (Bool-cases (str_eq ns ns')) [
  | inl e ↦ rw (
    lookup2-ns_or_new ns' key' (insert ns (erase key (ns_or_new ns m)) m),
    ns_or_new-insert ns ns' (erase key (ns_or_new ns m)) m,
    e,
    lookup-erase key key' (ns_or_new ns m),
    lookup2-ns_or_new ns' key' m,
    str_eq→≡ ns ns' e,
  )
  | inr e ↦ rw (
    lookup2-ns_or_new ns' key' (insert ns (erase key (ns_or_new ns m)) m),
    ns_or_new-insert ns ns' (erase key (ns_or_new ns m)) m,
    e,
    lookup2-ns_or_new ns' key' m,
  )
]

int_or_zero_bounded : (o : Option GoString) → int_or_zero o < u64_mod
unfolding int_or_zero
int_or_zero_bounded o = ground (arith, parse_int_bounded (text_of o))

calculate_bounded :
    (method : GoString) (param old : ℕ) → old < u64_mod → calculate method param old < u64_mod
unfolding calculate add_int64 mul_int64
calculate_bounded method param old h = ground arith

-- The sum modulo 2^64 where the method is ADD, in any case of letters, the product where it is MUL,
-- and else the old number.
unfoldable pub by_method : GoString → ℕ → ℕ → ℕ
by_method method param old =
    if equal_fold method (codes "ADD")
    then (old + param) % 2 ^ 64
    else if equal_fold method (codes "MUL")
    then (old * param) % 2 ^ 64
    else old

not_both :
    (method : GoString)
    → equal_fold method (codes "ADD") ≡ true
    → equal_fold method (codes "MUL") ≡ false
unfolding equal_fold
not_both [] e = cc
not_both (c ∷ s) e = ground arith

calculate_lem :
    (method : GoString) (param old : ℕ) → calculate method param old ≡ by_method method param old
unfolding calculate by_method add_int64 mul_int64
calculate_lem method param old = ground (arith, not_both method)

int_or_zero-format_int : (v : ℕ) → v < u64_mod → int_or_zero (some (format_int v)) ≡ v
unfolding int_or_zero
int_or_zero-format_int v h = rw (parse_int-format_int v h) refl

module _ (db : VersionedDb) (ns : GoString) (vh : Option Height) where
  abbrev pub cal_key : GoString → GoString
  cal_key v_str = (split b',' (drop 4 v_str)).0

  abbrev computed : GoString → Option GoString → VersionedValue → ℕ
  computed v_str value old =
      calculate (take 3 v_str) (parse_int (text_of value)).value (int_or_zero old.value)

  abbrev stored : GoString → Option GoString → VersionedValue → VersionedValue
  stored v_str value old = record {
    value = some (format_int (computed v_str value old));
    version = old.version;
  }

  cal_write-ok :
      (v_str : GoString) (value : Option GoString) (updates : UpdateBatch) (old : VersionedValue)
      → 4 ≤ length v_str
      → exist_value db ns (cal_key v_str) vh updates ≡ ok old
      → cal_write db ns vh v_str value updates
        ≡ ok (store_cal db ns (cal_key v_str) (stored v_str value old) updates)
  unfolding cal_write slice_to slice_from
  cal_write-ok v_str value updates old h e =
      let a : leb 3 (length v_str) ≡ true = ground arith in
      let b : leb 4 (length v_str) ≡ true = ground arith in rw (a, b, e) refl

  -- The value that a computation on a key starts from: the pending one, or else the block's plain
  -- write, or else the committed value, or zero where there is none or the database fails.
  abbrev pub StartsFrom : GoString → UpdateBatch → VersionedValue → Type 0
  StartsFrom key updates old =
      (lookup2 ns key updates.cals ≡ some old)
      ⊎ ((lookup2 ns key updates.cals ≡ none)
          × ((lookup2 ns key updates.updates ≡ some old)
              ⊎ ((lookup2 ns key updates.updates ≡ none)
                  × (o : Option VersionedValue) × (or_nil (db.get_state ns key) ≡ ok o)
                  × (old ≡ or_else o (zero_value vh)))))

  exist_value-StartsFrom :
      (key : GoString) (updates : UpdateBatch) (old : VersionedValue)
      → exist_value db ns key vh updates ≡ ok old
      → StartsFrom key updates old
  unfolding exist_value
  exist_value-StartsFrom key updates old e = elim (Option-cases (lookup2 ns key updates.cals)) [
    | inr (v, c) ↦ inl (ground (arith, c))
    | inl c ↦ elim (Option-cases (lookup2 ns key updates.updates)) [
      | inr (v, u) ↦ inr (c, inl (ground (arith, c, u)))
      | inl u ↦
          let chain : (or_nil (db.get_state ns key) >>= λ v. ok (or_else v (zero_value vh)))
              ≡ ok old =
            rw (c, u, exist_value) at e in
          let (o, read, found) =
            >>=-eq-ok (or_nil (db.get_state ns key)) (λ v. ok (or_else v (zero_value vh))) chain in
          inr (c, inr (u, o, read, ground arith))
    ]
  ]

  exist_value-pending :
      (key : GoString) (vh' : Option Height) (v : VersionedValue) (updates : UpdateBatch)
      → lookup2 ns key updates.cals ≡ some v
      → exist_value db ns key vh' updates ≡ ok v
  unfolding exist_value
  exist_value-pending key vh' v updates e = rw (e, exist_value) refl

  lookup2-store_cal :
      (key : GoString) (v : VersionedValue) (updates : UpdateBatch)
      → lookup2 ns key (store_cal db ns key v updates).cals ≡ some v
  unfolding store_cal
  lookup2-store_cal key v updates =
      lookup2-insert2 ns key ns key v updates.cals ∙ rw (str_eq_refl ns, str_eq_refl key) refl

  get-store_cal :
      (key ns' key' : GoString) (v : VersionedValue) (updates : UpdateBatch)
      → StateDb.get ns' key' (store_cal db ns key v updates)
        ≡ (if str_eq ns ns' && str_eq key key' then none else StateDb.get ns' key' updates)
  unfolding store_cal StateDb.get
  get-store_cal key ns' key' v updates = lookup2-erase2 ns key ns' key' updates.updates

  cals-store_cal :
      (key ns' key' : GoString) (v : VersionedValue) (updates : UpdateBatch)
      → lookup2 ns' key' (store_cal db ns key v updates).cals
        ≡ (if str_eq ns ns' && str_eq key key' then some v else lookup2 ns' key' updates.cals)
  unfolding store_cal
  cals-store_cal key ns' key' v updates = lookup2-insert2 ns key ns' key' v updates.cals

  -- A computed write whose key goes on for four bytes or more behind the prefix, and whose old
  -- value can be read, succeeds. The old value is the pending one, or else the block's plain write,
  -- or else the committed value. The value that is then pending for the key, from which a later
  -- computation starts, is the old number with the parameter added or multiplied modulo 2^64 as the
  -- method says, at the version of the old value; the block's plain write of the key is gone, and
  -- the plain writes of all other keys and their pending values are as before.
  pub cal_write_lem :
      (v_str : GoString) (value : Option GoString) (updates : UpdateBatch) (old : VersionedValue)
      → 4 ≤ length v_str
      → exist_value db ns (cal_key v_str) vh updates ≡ ok old
      → StartsFrom (cal_key v_str) updates old
        × (updates' : UpdateBatch) × (new : VersionedValue) × (cal_write db ns vh v_str value
              updates
            ≡ ok updates')
        × ((vh' : Option Height) → exist_value db ns (cal_key v_str) vh' updates' ≡ ok new)
        × (int_or_zero new.value
            ≡ by_method (take 3 v_str) (parse_int (text_of value)).value (int_or_zero old.value))
        × (new.version ≡ old.version)
        × ((ns' key' : GoString)
            → (StateDb.get ns' key' updates' ≡ (
                if str_eq ns ns' && str_eq (cal_key v_str) key'
                then none
                else StateDb.get ns' key' updates))
              × (lookup2 ns' key' updates'.cals ≡ (
                  if str_eq ns ns' && str_eq (cal_key v_str) key'
                  then some new
                  else lookup2 ns' key' updates.cals)))
  cal_write_lem v_str value updates old h e =
      let new : VersionedValue = stored v_str value old in
      let key = cal_key v_str in
      (
        exist_value-StartsFrom key updates old e,
        store_cal db ns key new updates,
        new,
        cal_write-ok v_str value updates old h e,
        λ vh'.
            exist_value-pending key vh' new (store_cal db ns key new updates)
              (lookup2-store_cal key new updates),
        int_or_zero-format_int (computed v_str value old) (
              calculate_bounded (take 3 v_str) _ (int_or_zero old.value)
                (int_or_zero_bounded old.value))
            ∙ calculate_lem (take 3 v_str) (parse_int (text_of value)).value
                (int_or_zero old.value),
        refl,
        λ ns' key'.
            (get-store_cal key ns' key' new updates, cals-store_cal key ns' key' new updates),
      )
