-- ===== src/Cache/Laws.antt =====
-- What a lookup in the cache sees after each operation.
use mathlib.Core.Path.{subst}
use eloan_peer.Prelude.{
  ℕ, ◌+◌, ◌≤◌, ◌<◌, ◌≡◌, refl, ap, ◌∙◌, Option, none, some, List, [], ◌∷◌, if◌then◌else◌, arith,
  leb, Bool-cases, inl, inr,
}
use eloan_peer.Prelude.GoString.{GoString, str_eq, str_eq→≡, str_eq_refl}
use eloan_peer.Prelude.Assoc.{Assoc, lookup, keys, member, lookup-insert, lookup-erase, member-keys}
use eloan_peer.Cache.{
  Cache, CacheItem, is_expired, is_stale, sweep, sweep_one, delete_expired, delete_item, item_of,
  set_item, visible, get_item, sign_bit,
}

module _ {V : Type 0} where
  -- The entry that is left of one in the map.
  abbrev pub keep_fresh : ℕ → Option (CacheItem V) → Option (CacheItem V)
  keep_fresh now none = none
  keep_fresh now (some v) = if is_stale now v then none else some v

  lookup-sweep_one :
      (now : ℕ) (j k : GoString) (items : Assoc (CacheItem V))
      → lookup j (sweep_one now k items)
        ≡ (if str_eq k j then keep_fresh now (lookup j items) else lookup j items)
  unfolding sweep_one
  lookup-sweep_one now j k items = elim (Bool-cases (str_eq k j)) [
    | inl e ↦
        subst
          (λ i.
            lookup i (sweep_one now k items)
            ≡ (if str_eq k i then keep_fresh now (lookup i items) else lookup i items))
          (str_eq→≡ k j e) (ground (arith, lookup-erase k k items, str_eq_refl k))
    | inr e ↦ ground (arith, lookup-erase k j items)
  ]

  keep_fresh-keep_fresh :
      (now : ℕ) (o : Option (CacheItem V)) → keep_fresh now (keep_fresh now o) ≡ keep_fresh now o
  keep_fresh-keep_fresh now none = refl
  keep_fresh-keep_fresh now (some v) = ground arith

  lookup-sweep :
      (now : ℕ) (j : GoString) (ks : List GoString) (items : Assoc (CacheItem V))
      → lookup j (sweep now ks items)
        ≡ (if member j ks then keep_fresh now (lookup j items) else lookup j items)
  unfolding sweep member
  lookup-sweep now j [] items = refl
  lookup-sweep now j (k ∷ ks) items = ground (
    arith,
    lookup-sweep now j ks (sweep_one now k items),
    lookup-sweep_one now j k items,
    keep_fresh-keep_fresh now (lookup j items),
  )

  pub lookup-delete_expired :
      (now : ℕ) (j : GoString) (c : Cache V)
      → lookup j (delete_expired now c).items ≡ keep_fresh now (lookup j c.items)
  unfolding delete_expired
  lookup-delete_expired now j c =
      ground (arith, lookup-sweep now j (keys c.items) c.items, member-keys j c.items)

  -- What is stale has expired, then and later.
  visible-keep_fresh :
      (now later : ℕ) (o : Option (CacheItem V))
      → now ≤ later
      → visible later (keep_fresh now o) ≡ visible later o
  unfolding visible is_stale is_expired
  visible-keep_fresh now later none h = refl
  visible-keep_fresh now later (some v) h = ground arith

  pub get-delete_expired :
      (now later : ℕ) (j : GoString) (c : Cache V)
      → now ≤ later
      → get_item later j (delete_expired now c) ≡ get_item later j c
  unfolding get_item
  get-delete_expired now later j c h =
      ap (visible later) (lookup-delete_expired now j c)
      ∙ visible-keep_fresh now later (lookup j c.items) h

  pub get-set_item :
      (now later d : ℕ) (k j : GoString) (v : V) (c : Cache V)
      → get_item later j (set_item now k v d c)
        ≡ (if str_eq k j then visible later (some (item_of now v d c)) else get_item later j c)
  unfolding get_item set_item
  get-set_item now later d k j v c = ground (arith, lookup-insert k j (item_of now v d c) c.items)

  pub get-delete_item :
      (later : ℕ) (k j : GoString) (c : Cache V)
      → get_item later j (delete_item k c) ≡ (if str_eq k j then none else get_item later j c)
  unfolding get_item delete_item
  get-delete_item later k j c = unfold visible in ground (arith, lookup-erase k j c.items)

  item_of-visible :
      (now later d : ℕ) (v : V) (c : Cache V)
      → 0 < d
      → now + d < sign_bit
      → visible later (some (item_of now v d c)) ≡ (if leb later (now + d) then some v else none)
  unfolding item_of visible is_expired
  item_of-visible now later d v c h k = ground arith

  -- An item that is set for a positive duration, which ends before the largest time, is found until
  -- it ends and not after it; under every other key a lookup finds what it found before.
  pub get-set_lem :
      (now later d : ℕ) (k j : GoString) (v : V) (c : Cache V)
      → 0 < d
      → now + d < sign_bit
      → get_item later j (set_item now k v d c) ≡ (
          if str_eq k j then (if leb later (now + d) then some v else none) else get_item later j c)
  get-set_lem now later d k j v c h g =
      get-set_item now later d k j v c
      ∙ ap (λ o. if str_eq k j then o else get_item later j c) (item_of-visible now later d v c h g)
