-- ===== src/Cache.antt =====
-- core/ledger/kvledger/txmgmt/validator/statebasedval/cache/cache.go: the map of items with expiry
-- in which the validator keeps its lists. An int64 is its bit pattern, below 2^64; every reading of
-- the clock, in nanoseconds, is an argument. The lock makes each operation one step.
pub mod Laws
pub mod Traces
use eloan_peer.Prelude.{
  ℕ, ◌+◌, ◌%◌, ◌^◌, Bool, true, false, ◌&&◌, Option, none, some, List, [], ◌∷◌, ◌++◌, Error, failed,
  ltb, leb, ◌==◌, if◌then◌else◌, length, codes,
}
use eloan_peer.Prelude.GoString.{GoString}
use eloan_peer.Prelude.Assoc.{Assoc, lookup, insert, erase, keys}

abbrev pub sign_bit : ℕ
sign_bit = 2 ^ 63

abbrev pub is_positive : ℕ → Bool
is_positive d = ltb 0 d && ltb d sign_bit

pub record CacheItem (V : Type 0) : Type 0 where
  pub object : V
  pub expiration : ℕ

pub record Cache (V : Type 0) : Type 0 where
  pub default_expiration : ℕ
  pub items : Assoc (CacheItem V)
  pub gc_interval : ℕ

exists_error : GoString → Error
exists_error k = Error.failed (codes "Item " ++ k ++ codes " already exists")

missing_error : GoString → Error
missing_error k = Error.failed (codes "Item " ++ k ++ codes " does't exists")

module _ {V : Type 0} where
  -- The clock is compared with the expiration as signed numbers; a negative one lies in the past.
  unfoldable pub is_expired : ℕ → CacheItem V → Bool
  is_expired now item =
      if item.expiration == 0
      then false
      else if leb sign_bit item.expiration
      then true
      else ltb item.expiration now

  unfoldable pub new_cache : ℕ → ℕ → Cache V
  new_cache default_expiration gc_interval = record {
    default_expiration = default_expiration;
    items = [];
    gc_interval = gc_interval;
  }

  unfoldable pub is_stale : ℕ → CacheItem V → Bool
  is_stale now item = is_positive item.expiration && ltb item.expiration now

  unfoldable pub sweep_one : ℕ → GoString → Assoc (CacheItem V) → Assoc (CacheItem V)
  unfolding is_stale
  sweep_one now k items = elim (lookup k items) [
    | none ↦ items
    | some v ↦ if is_stale now v then erase k items else items
  ]

  unfoldable pub sweep : ℕ → List GoString → Assoc (CacheItem V) → Assoc (CacheItem V)
  unfolding sweep_one
  sweep now [] items = items
  sweep now (k ∷ ks) items = sweep now ks (sweep_one now k items)

  unfoldable pub delete_expired : ℕ → Cache V → Cache V
  unfolding sweep
  delete_expired now c = record c { items = sweep now (keys c.items) c.items }

  unfoldable pub delete_item : GoString → Cache V → Cache V
  delete_item k c = record c { items = erase k c.items }

  unfoldable pub item_of : ℕ → V → ℕ → Cache V → CacheItem V
  item_of now v d c =
      let duration = if d == 0 then c.default_expiration else d in
      record {
        object = v;
        expiration = if is_positive duration then (now + duration) % 2 ^ 64 else 0;
      }

  unfoldable pub set_item : ℕ → GoString → V → ℕ → Cache V → Cache V
  unfolding item_of
  set_item now k v d c = record c { items = insert k (item_of now v d c) c.items }

  -- What a lookup makes of the map's entry.
  unfoldable pub visible : ℕ → Option (CacheItem V) → Option V
  unfolding is_expired
  visible now none = none
  visible now (some item) = if is_expired now item then none else some item.object

  unfoldable pub get_item : ℕ → GoString → Cache V → Option V
  unfolding visible
  get_item now k c = visible now (lookup k c.items)

  -- The clock is read twice, by `get` and by `set`.
  unfoldable pub add_item : ℕ → ℕ → GoString → V → ℕ → Cache V → Option Error × Cache V
  unfolding set_item get_item exists_error
  add_item now now' k v d c = elim (get_item now k c) [
    | some old ↦ (some (exists_error k), c)
    | none ↦ (none, set_item now' k v d c)
  ]

  unfoldable pub replace_item : ℕ → ℕ → GoString → V → ℕ → Cache V → Option Error × Cache V
  unfolding set_item get_item missing_error
  replace_item now now' k v d c = elim (get_item now k c) [
    | none ↦ (some (missing_error k), c)
    | some old ↦ (none, set_item now' k v d c)
  ]

  unfoldable pub count : Cache V → ℕ
  count c = length c.items

  unfoldable pub flush : Cache V → Cache V
  flush c = record c { items = [] }
