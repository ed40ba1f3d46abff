-- ===== src/Rwset/Builder/Writes.antt =====
-- The writes of a namespace that the builder returns, against what was added to it.
use mathlib.Core.Path.{subst, ap₂}
use eloan_peer.Prelude.{
  ◌≡◌, refl, sym, ap, ◌∙◌, Bool, true, false, ◌&&◌, Option, none, some, List, [], ◌∷◌,
  if◌then◌else◌, is_some, arith, Bool-cases, Option-cases, inl, inr,
}
use eloan_peer.Prelude.GoString.{GoString, str_eq, str_eq_iff, str_eq→≡, str_eq_refl}
use eloan_peer.Prelude.Assoc.{
  Assoc, lookup, insert, lookup-insert, keys, member, Distinct, Distinct-insert,
}
use eloan_peer.StateDb.Sort.{get_sorted_keys, get_sorted_keys_lem, Increasing}
use eloan_peer.Rwset.{KvWrite, new_kv_write}
use eloan_peer.Rwset.Builder.{
  NsRws, RwsetBuilder, new_rwset_builder, new_ns_rws, get_or_create_ns_rw, store_ns_rw,
  add_to_write_set, collect, ns_read_write_set,
}

unfoldable pub find_write : GoString → List KvWrite → Option KvWrite
find_write k [] = none
find_write k (w ∷ l) = if str_eq w.key k then some w else find_write k l

abbrev pub write_keys : List KvWrite → List GoString
write_keys [] = []
write_keys (w ∷ l) = w.key ∷ write_keys l

-- Every write stands under its own key, and no key twice.
pub record AreKeyed (m : Assoc KvWrite) : Type 0 where
  pub distinct : Distinct (keys m)
  pub own_key : (k : GoString) (w : KvWrite) → lookup k m ≡ some w → w.key ≡ k

find_write-collect :
    (m : Assoc KvWrite) (h : AreKeyed m) (k : GoString) (l : List GoString)
    → find_write k (collect m l) ≡ (if member k l then lookup k m else none)
unfolding find_write collect member
find_write-collect m h k [] = refl
find_write-collect m h k (j ∷ l) = elim (Option-cases (lookup j m)) [
  | inl e ↦ rw (e, collect) (ground (arith, find_write-collect m h k l, str_eq_iff j k, e))
  | inr (w, e) ↦
      (let o : w.key ≡ j = h.own_key j w e in
        rw (e, collect) (ground (arith, find_write-collect m h k l, str_eq_iff j k, e, o)))
]

none_some : false ≡ true → ⊥
none_some e = cc

write_keys-collect :
    (m : Assoc KvWrite) (h : AreKeyed m) (l : List GoString)
    → ((k : GoString) → member k l ≡ true → is_some (lookup k m) ≡ true)
    → write_keys (collect m l) ≡ l
unfolding collect member
write_keys-collect m h [] f = refl
write_keys-collect m h (j ∷ l) f = elim (Option-cases (lookup j m)) [
  | inl e ↦ absurd (none_some (sym (ap is_some e) ∙ f j (rw (str_eq_refl j) refl)))
  | inr (w, e) ↦
      rw (e, collect)
        (ap₂ (λ a b. a ∷ b) (h.own_key j w e)
          (write_keys-collect m h l (λ k t. f k (ground (arith, t)))))
]

own_key-insert :
    (key : GoString) (value : Option GoString) (k : GoString) (w : KvWrite) (old : Option KvWrite)
    → (old ≡ some w → w.key ≡ k)
    → (if str_eq key k then some (new_kv_write key value) else old) ≡ some w
    → w.key ≡ k
unfolding new_kv_write
own_key-insert key value k w old h e = elim (Bool-cases (str_eq key k)) [
  | inl s ↦ ground (arith, s, str_eq→≡ key k s)
  | inr s ↦ h (rw s at e)
]

AreKeyed-insert :
    (key : GoString) (value : Option GoString) (m : Assoc KvWrite)
    → AreKeyed m
    → AreKeyed (insert key (new_kv_write key value) m)
AreKeyed-insert key value m h = record {
  distinct = Distinct-insert key (new_kv_write key value) m h.distinct;
  own_key = λ k w e.
      own_key-insert key value k w (lookup k m) (h.own_key k w)
        (sym (lookup-insert key k (new_kv_write key value) m) ∙ e);
}

-- The writes that are returned for a namespace.
abbrev pub writes_of : GoString → RwsetBuilder → List KvWrite
writes_of ns rws = (ns_read_write_set ns (get_or_create_ns_rw ns rws)).kv_rw_set.writes

abbrev pub IsWfBuilder : RwsetBuilder → Type 0
IsWfBuilder rws = (ns : GoString) → AreKeyed (get_or_create_ns_rw ns rws).write_map

get_or_create-store :
    (ns ns' : GoString) (r : NsRws) (rws : RwsetBuilder)
    → get_or_create_ns_rw ns' (store_ns_rw ns r rws)
      ≡ (if str_eq ns ns' then r else get_or_create_ns_rw ns' rws)
unfolding get_or_create_ns_rw store_ns_rw
get_or_create-store ns ns' r rws = elim (Bool-cases (str_eq ns ns')) [
  | inl e ↦ rw (lookup-insert ns ns' r rws.rw_map, e, get_or_create_ns_rw) refl
  | inr e ↦ rw (lookup-insert ns ns' r rws.rw_map, e, get_or_create_ns_rw) refl
]

find_write-writes_of :
    (ns k : GoString) (rws : RwsetBuilder)
    → IsWfBuilder rws
    → (find_write k (writes_of ns rws) ≡ lookup k (get_or_create_ns_rw ns rws).write_map)
      × Increasing (write_keys (writes_of ns rws))
unfolding ns_read_write_set
find_write-writes_of ns k rws wf =
    let m : Assoc KvWrite = (get_or_create_ns_rw ns rws).write_map in
    let (sorted, same) = get_sorted_keys_lem m (wf ns).distinct in
    (
      find_write-collect m (wf ns) k (get_sorted_keys m) ∙ ground (arith, same k),
      subst Increasing
          (sym (write_keys-collect m (wf ns) (get_sorted_keys m) (λ j t. sym (same j) ∙ t))) sorted,
    )

add_write_map :
    (ns ns' key : GoString) (value : Option GoString) (rws : RwsetBuilder)
    → (get_or_create_ns_rw ns' (add_to_write_set ns key value rws)).write_map ≡ (
        if str_eq ns ns'
        then insert key (new_kv_write key value) (get_or_create_ns_rw ns rws).write_map
        else (get_or_create_ns_rw ns' rws).write_map)
unfolding add_to_write_set
add_write_map ns ns' key value rws = ground (
  arith,
  get_or_create-store ns ns'
      (record (get_or_create_ns_rw ns rws) {
        write_map = insert key (new_kv_write key value) (get_or_create_ns_rw ns rws).write_map;
      })
      rws,
)

keyed_if :
    (b : Bool) {m m' : Assoc KvWrite} → AreKeyed m → AreKeyed m' → AreKeyed (if b then m' else m)
keyed_if true h h' = h'
keyed_if false h h' = h

lookup-if :
    (ns ns' key k : GoString) (w : KvWrite) (rws : RwsetBuilder)
    → lookup k (
        if str_eq ns ns'
        then insert key w (get_or_create_ns_rw ns rws).write_map
        else (get_or_create_ns_rw ns' rws).write_map)
      ≡ (if str_eq ns ns' && str_eq key k
          then some w
          else lookup k (get_or_create_ns_rw ns' rws).write_map)
lookup-if ns ns' key k w rws = elim (Bool-cases (str_eq ns ns')) [
  | inl e ↦
      rw (e, str_eq→≡ ns ns' e) (lookup-insert key k w (get_or_create_ns_rw ns' rws).write_map)
  | inr e ↦ rw e refl
]

IsWfBuilder-add :
    (ns key : GoString) (value : Option GoString) (rws : RwsetBuilder)
    → IsWfBuilder rws
    → IsWfBuilder (add_to_write_set ns key value rws)
IsWfBuilder-add ns key value rws wf ns' =
    subst AreKeyed (sym (add_write_map ns ns' key value rws))
      (keyed_if (str_eq ns ns') (wf ns') (AreKeyed-insert key value _ (wf ns)))

find_write-add :
    (ns ns' key k : GoString) (value : Option GoString) (rws : RwsetBuilder)
    → IsWfBuilder rws
    → find_write k (writes_of ns' (add_to_write_set ns key value rws)) ≡ (
        if str_eq ns ns' && str_eq key k
        then some (new_kv_write key value)
        else find_write k (writes_of ns' rws))
find_write-add ns ns' key k value rws wf =
    (find_write-writes_of ns' k (add_to_write_set ns key value rws)
      (IsWfBuilder-add ns key value rws wf)).0
    ∙ ap (lookup k) (add_write_map ns ns' key value rws)
    ∙ lookup-if ns ns' key k (new_kv_write key value) rws
    ∙ ap (λ o. if str_eq ns ns' && str_eq key k then some (new_kv_write key value) else o)
        (sym (find_write-writes_of ns' k rws wf).0)

-- A write of a key: a deletion where the value is nil.
abbrev pub written_as : GoString → Option GoString → KvWrite
written_as key none = record { key = key; is_delete = true; value = none }
written_as key (some v) = record { key = key; is_delete = false; value = some v }

new_kv_write_lem :
    (key : GoString) (value : Option GoString) → new_kv_write key value ≡ written_as key value
unfolding new_kv_write
new_kv_write_lem key none = refl
new_kv_write_lem key (some v) = refl

-- Adding a write to a builder whose writes stand under their own keys: of the writes that are
-- returned for a namespace, the one of that key is then the added one, a deletion where the value is
-- nil, every other is as before, they come in increasing order of keys, and the builder stays such.
pub add_to_write_set_lem :
    (ns key : GoString) (value : Option GoString) (rws : RwsetBuilder)
    → IsWfBuilder rws
    → IsWfBuilder (add_to_write_set ns key value rws)
      × ((ns' k : GoString)
          → (find_write k (writes_of ns' (add_to_write_set ns key value rws)) ≡ (
              if str_eq ns ns' && str_eq key k
              then some (written_as key value)
              else find_write k (writes_of ns' rws)))
            × Increasing (write_keys (writes_of ns' (add_to_write_set ns key value rws))))
add_to_write_set_lem ns key value rws wf =
    let wf' : IsWfBuilder (add_to_write_set ns key value rws) =
      IsWfBuilder-add ns key value rws wf in
    (
      wf',
      λ ns' k. (
        find_write-add ns ns' key k value rws wf
            ∙ ap
                (λ w.
                  if str_eq ns ns' && str_eq key k
                  then some w
                  else find_write k (writes_of ns' rws))
                (new_kv_write_lem key value),
        (find_write-writes_of ns' k (add_to_write_set ns key value rws) wf').1,
      ),
    )

pub IsWfBuilder-new : IsWfBuilder new_rwset_builder
unfolding new_rwset_builder get_or_create_ns_rw new_ns_rws lookup keys
IsWfBuilder-new ns = record { distinct = tt; own_key = λ k w e. cc }
