-- ===== src/Validator/Moves/Sums.antt =====
-- The computed values at the end of a block: all become writes, and none is lost or changed.
use mathlib.Core.Path.{ap₂}
use eloan_peer.Prelude.{
  ◌≡◌, refl, sym, ◌∙◌, ap, Bool, true, false, ◌&&◌, Option, none, some, List, [], ◌∷◌, is_some,
  if◌then◌else◌, arith, Bool-cases, Option-cases, inl, inr,
}
use eloan_peer.Prelude.GoString.{GoString, str_eq, str_eq→≡, str_eq_iff}
use eloan_peer.Prelude.Assoc.{Assoc, insert, keys, member, member-keys}
use eloan_peer.StateDb
use eloan_peer.StateDb.{
  UpdateBatch, VersionedValue, lookup2, insert2, ns_or_new, get_or_create, get_or_create_ns_updates,
  get_or_create_ns_cals, get_caled_namespaces,
}
use eloan_peer.StateDb.Batch.{lookup2-insert2, lookup2-ns_or_new, ns_or_new-insert}
use eloan_peer.Validator.Computed.Sums.{lookup2-erase2}
use eloan_peer.Validator.Moves.{move_cal, move_keys, move_ns_cals, move_cals}

abbrev pub over : Option VersionedValue → Option VersionedValue → Option VersionedValue
over (some v) cal = some v
over none cal = cal

-- What a key is going to hold: the block's plain write, or else the computed value.
abbrev pub pending : GoString → GoString → UpdateBatch → Option VersionedValue
pending ns k batch = over (lookup2 ns k batch.updates) (lookup2 ns k batch.cals)

pub lookup2-get_or_create {ℓ} :
    {V : Type ℓ} (ns ns' k : GoString) (m : Assoc (Assoc V))
    → lookup2 ns' k (get_or_create ns m) ≡ lookup2 ns' k m
unfolding get_or_create
lookup2-get_or_create ns ns' k m = elim (Bool-cases (str_eq ns ns')) [
  | inl e ↦ rw (
    lookup2-ns_or_new ns' k (insert ns (ns_or_new ns m) m),
    ns_or_new-insert ns ns' (ns_or_new ns m) m,
    e,
    lookup2-ns_or_new ns' k m,
    str_eq→≡ ns ns' e,
  )
  | inr e ↦ rw (
    lookup2-ns_or_new ns' k (insert ns (ns_or_new ns m) m),
    ns_or_new-insert ns ns' (ns_or_new ns m) m,
    e,
    lookup2-ns_or_new ns' k m,
  )
]

false-true : false ≡ true → ⊥
false-true e = cc

-- Keys in question are the same or not.
abbrev same_key : GoString → GoString → GoString → GoString → Bool
same_key ns k ns' j = str_eq ns ns' && str_eq k j

-- A fact about one key, told of another.
at_same {ℓ} :
    {V : Type ℓ} (ns k ns' j : GoString) (m : Assoc (Assoc V)) {o : Option V}
    → same_key ns k ns' j ≡ true
    → lookup2 ns k m ≡ o
    → lookup2 ns' j m ≡ o
at_same ns k ns' j m s e = ground (arith, str_eq_iff ns ns', str_eq_iff k j)

cals-move_cal :
    (ns k ns' j : GoString) (batch : UpdateBatch)
    → lookup2 ns' j (move_cal ns k batch).cals
      ≡ (if same_key ns k ns' j then none else lookup2 ns' j batch.cals)
unfolding move_cal
cals-move_cal ns k ns' j batch = elim (Option-cases (lookup2 ns k batch.cals)) [
  | inl e ↦
      rw (e, move_cal)
        (elim (Bool-cases (same_key ns k ns' j)) [
          | inl s ↦ rw s (at_same ns k ns' j batch.cals s e)
          | inr s ↦ rw s refl
        ])
  | inr (vv, e) ↦ elim (Bool-cases (is_some (lookup2 ns k batch.updates))) [
    | inl c ↦ rw (e, c, move_cal) (lookup2-erase2 ns k ns' j batch.cals)
    | inr c ↦ rw (e, c, move_cal) (lookup2-erase2 ns k ns' j batch.cals)
  ]
]

over-dropped :
    (u c : Option VersionedValue) (same : Bool)
    → (same ≡ true → is_some u ≡ true)
    → over u (if same then none else c) ≡ over u c
over-dropped none c true h = absurd (false-true (h refl))
over-dropped none c false h = refl
over-dropped (some v) c same h = refl

over-moved :
    (u c : Option VersionedValue) (v : VersionedValue) (same : Bool)
    → (same ≡ true → u ≡ none)
    → (same ≡ true → c ≡ some v)
    → over (if same then some v else u) (if same then none else c) ≡ over u c
over-moved u c v true h g = rw (h refl, g refl) refl
over-moved u c v false h g = refl

pending-move_cal :
    (ns k ns' j : GoString) (batch : UpdateBatch)
    → pending ns' j (move_cal ns k batch) ≡ pending ns' j batch
unfolding move_cal
pending-move_cal ns k ns' j batch = elim (Option-cases (lookup2 ns k batch.cals)) [
  | inl e ↦ rw (e, move_cal) refl
  | inr (vv, e) ↦ elim (Option-cases (lookup2 ns k batch.updates)) [
    | inr (w, c) ↦
        rw (e, c, move_cal)
          (ap (over (lookup2 ns' j batch.updates)) (lookup2-erase2 ns k ns' j batch.cals)
            ∙ over-dropped (lookup2 ns' j batch.updates) (lookup2 ns' j batch.cals)
                (same_key ns k ns' j) (λ s. ap is_some (at_same ns k ns' j batch.updates s c)))
    | inl c ↦
        rw (e, c, move_cal)
          (ap₂ over (lookup2-insert2 ns k ns' j vv batch.updates)
              (lookup2-erase2 ns k ns' j batch.cals)
            ∙ over-moved (lookup2 ns' j batch.updates) (lookup2 ns' j batch.cals) vv
                (same_key ns k ns' j) (λ s. at_same ns k ns' j batch.updates s c)
                (λ s. at_same ns k ns' j batch.cals s e))
  ]
]

pending-move_keys :
    (ns : GoString) (ks : List GoString) (ns' j : GoString) (batch : UpdateBatch)
    → pending ns' j (move_keys ns ks batch) ≡ pending ns' j batch
unfolding move_keys
pending-move_keys ns [] ns' j batch = refl
pending-move_keys ns (k ∷ ks) ns' j batch =
    pending-move_keys ns ks ns' j (move_cal ns k batch) ∙ pending-move_cal ns k ns' j batch

cals-move_keys :
    (ns : GoString) (ks : List GoString) (ns' j : GoString) (batch : UpdateBatch)
    → lookup2 ns' j (move_keys ns ks batch).cals
      ≡ (if str_eq ns ns' && member j ks then none else lookup2 ns' j batch.cals)
unfolding move_keys member
cals-move_keys ns [] ns' j batch = ground arith
cals-move_keys ns (k ∷ ks) ns' j batch =
    ground (arith, cals-move_keys ns ks ns' j (move_cal ns k batch), cals-move_cal ns k ns' j batch)

abbrev created_of : GoString → UpdateBatch → UpdateBatch
created_of ns batch = get_or_create_ns_cals ns (get_or_create_ns_updates ns batch)

pending-move_ns_cals :
    (ns ns' j : GoString) (batch : UpdateBatch)
    → pending ns' j (move_ns_cals ns batch) ≡ pending ns' j batch
unfolding move_ns_cals get_or_create_ns_cals get_or_create_ns_updates
pending-move_ns_cals ns ns' j batch =
    pending-move_keys ns (keys (ns_or_new ns (created_of ns batch).cals)) ns' j
      (created_of ns batch)
    ∙ ap₂ over (lookup2-get_or_create ns ns' j batch.updates)
        (lookup2-get_or_create ns ns' j batch.cals)

over-none : (u : Option VersionedValue) → u ≡ over u none
over-none none = refl
over-none (some v) = refl

all_keys :
    (ns ns' j : GoString) (m : Assoc (Assoc VersionedValue))
    → (if str_eq ns ns' && member j (keys (ns_or_new ns m)) then none else lookup2 ns' j m)
      ≡ (if str_eq ns ns' then none else lookup2 ns' j m)
all_keys ns ns' j m =
    ground (arith, member-keys j (ns_or_new ns m), lookup2-ns_or_new ns j m, str_eq_iff ns ns')

-- No computed value is left in the namespace; those of the others stay.
cals-move_ns_cals :
    (ns ns' j : GoString) (batch : UpdateBatch)
    → lookup2 ns' j (move_ns_cals ns batch).cals
      ≡ (if str_eq ns ns' then none else lookup2 ns' j batch.cals)
unfolding move_ns_cals get_or_create_ns_cals get_or_create_ns_updates
cals-move_ns_cals ns ns' j batch =
    cals-move_keys ns (keys (ns_or_new ns (created_of ns batch).cals)) ns' j (created_of ns batch)
    ∙ all_keys ns ns' j (created_of ns batch).cals
    ∙ ap (λ o. if str_eq ns ns' then none else o) (lookup2-get_or_create ns ns' j batch.cals)

pending-move_cals :
    (l : List GoString) (ns j : GoString) (batch : UpdateBatch)
    → pending ns j (move_cals l batch) ≡ pending ns j batch
unfolding move_cals
pending-move_cals [] ns j batch = refl
pending-move_cals (k ∷ l) ns j batch =
    pending-move_cals l ns j (move_ns_cals k batch) ∙ pending-move_ns_cals k ns j batch

cals-move_cals :
    (l : List GoString) (ns j : GoString) (batch : UpdateBatch)
    → lookup2 ns j (move_cals l batch).cals
      ≡ (if member ns l then none else lookup2 ns j batch.cals)
unfolding move_cals member
cals-move_cals [] ns j batch = refl
cals-move_cals (k ∷ l) ns j batch =
    ground (arith, cals-move_cals l ns j (move_ns_cals k batch), cals-move_ns_cals k ns j batch)

lookup2-missing :
    (ns j : GoString) (m : Assoc (Assoc VersionedValue))
    → member ns (keys m) ≡ false
    → lookup2 ns j m ≡ none
unfolding lookup2
lookup2-missing ns j m h = ground (arith, member-keys ns m)

-- Behind the move of the computed values every key holds the block's plain write of it, if there is
-- one, and else the value that was computed for it; no computed value is left over.
pub get-move_cals :
    (ns key : GoString) (batch : UpdateBatch)
    → (StateDb.get ns key (move_cals (get_caled_namespaces batch) batch)
        ≡ over (StateDb.get ns key batch) (lookup2 ns key batch.cals))
      × (lookup2 ns key (move_cals (get_caled_namespaces batch) batch).cals ≡ none)
unfolding StateDb.get get_caled_namespaces
get-move_cals ns key batch =
    let gone : lookup2 ns key (move_cals (keys batch.cals) batch).cals ≡ none =
      cals-move_cals (keys batch.cals) ns key batch
      ∙ ground (arith, lookup2-missing ns key batch.cals) in
    (
      over-none (lookup2 ns key (move_cals (keys batch.cals) batch).updates)
          ∙ ap (over (lookup2 ns key (move_cals (keys batch.cals) batch).updates)) (sym gone)
          ∙ pending-move_cals (keys batch.cals) ns key batch,
      gone,
    )
