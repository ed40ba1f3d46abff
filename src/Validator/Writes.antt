-- ===== src/Validator/Writes.antt =====
-- What a valid transaction writes to the batch: `addWriteSetToBatch` of state_based_validator.go.
use mathlib.Core.Path.{subst}
use eloan_peer.Prelude.{
  All, is_some, true, false, refl, ◌≡◌, sym, ◌∙◌, ap, ◌&&◌, Option, none, some, List, [], ◌∷◌, ok,
  >>=-eq-ok, if◌then◌else◌, arith, Bool-cases, inl, inr,
}
use eloan_peer.Prelude.GoString.{GoString, str_eq}
use eloan_peer.Version.{Height}
use eloan_peer.StateDb
use eloan_peer.StateDb.{UpdateBatch, VersionedValue, put, delete}
use eloan_peer.StateDb.Batch.{get-put, get-delete}
use eloan_peer.StateDb.Wf.{IsWf, IsWf-put, IsWf-delete}
use eloan_peer.Rwset.{KvWrite, NsRwSet, TxRwSet}
use eloan_peer.Validator.{
  is_computed, add_write_to_batch, add_writes_to_batch, add_write_set_to_batch,
  add_ns_sets_to_batch,
}

-- What one write leaves under its key: a deletion mark, a value, or nothing where the key is that
-- of a computed write.
abbrev pub entry_of : KvWrite → Height → Option VersionedValue
entry_of w h =
    if w.is_delete
    then some (record { value = none; version = some h })
    else if is_computed w.key
    then none
    else some (record { value = w.value; version = some h })

abbrev pub over : Option VersionedValue → Option VersionedValue → Option VersionedValue
over none old = old
over (some v) old = some v

-- The last entry that the writes leave under a key, over an older one.
abbrev pub last_entry :
    GoString → List KvWrite → Height → Option VersionedValue → Option VersionedValue
last_entry key [] h old = old
last_entry key (w ∷ ws) h old =
    last_entry key ws h (if str_eq w.key key then over (entry_of w h) old else old)

-- The same for a transaction's sets, of which several may be of one namespace.
abbrev pub last_of_sets :
    GoString → GoString → List NsRwSet → Height → Option VersionedValue → Option VersionedValue
last_of_sets ns key [] h old = old
last_of_sets ns key (s ∷ sets) h old =
    last_of_sets ns key sets h
      (if str_eq s.name_space ns then last_entry key s.kv_rw_set.writes h old else old)

ok_inj : {a b : UpdateBatch} → ok a ≡ ok b → a ≡ b
ok_inj e = cc

get-put_ok :
    (ns key ns' key' : GoString) (value : Option GoString) (version : Option Height)
    (batch batch' : UpdateBatch)
    → put ns key value version batch ≡ ok batch'
    → StateDb.get ns' key' batch' ≡ (
        if str_eq ns ns' && str_eq key key'
        then some (record { value = value; version = version })
        else StateDb.get ns' key' batch)
get-put_ok ns key ns' key' none version batch batch' e = unfold put in cc
get-put_ok ns key ns' key' (some value) version batch batch' e =
    let (b, made, g) = get-put ns key ns' key' value version batch in
    let same : b ≡ batch' = ok_inj (sym made ∙ e) in ap (λ x. StateDb.get ns' key' x) (sym same) ∙ g

-- What a write does to an entry of its namespace.
abbrev after_write : GoString → KvWrite → Height → Option VersionedValue → Option VersionedValue
after_write key w h old = if str_eq w.key key then over (entry_of w h) old else old

get-add_write :
    (ns ns' key : GoString) (w : KvWrite) (h : Height) (batch batch' : UpdateBatch)
    → add_write_to_batch ns w h batch ≡ ok batch'
    → StateDb.get ns' key batch' ≡ (
        if str_eq ns ns'
        then after_write key w h (StateDb.get ns' key batch)
        else StateDb.get ns' key batch)
unfolding add_write_to_batch
get-add_write ns ns' key w h batch batch' e = elim (Bool-cases w.is_delete) [
  | inl d ↦ ground (arith, d, ok_inj (rw d at e), get-delete ns w.key ns' key (some h) batch)
  | inr d ↦ elim (Bool-cases (is_computed w.key)) [
    | inl c ↦ ground (arith, d, c)
    | inr c ↦ ground (arith, d, c, get-put_ok ns w.key ns' key w.value (some h) batch batch')
  ]
]

get-add_writes :
    (ns ns' key : GoString) (ws : List KvWrite) (h : Height) (batch batch' : UpdateBatch)
    → add_writes_to_batch ns ws h batch ≡ ok batch'
    → StateDb.get ns' key batch' ≡ (
        if str_eq ns ns'
        then last_entry key ws h (StateDb.get ns' key batch)
        else StateDb.get ns' key batch)
unfolding add_writes_to_batch
get-add_writes ns ns' key [] h batch batch' e = ground (arith, ok_inj e)
get-add_writes ns ns' key (w ∷ ws) h batch batch' e =
    let (b, p, q) =
      >>=-eq-ok (add_write_to_batch ns w h batch) (λ x. add_writes_to_batch ns ws h x) e in
    ground
      (arith, get-add_write ns ns' key w h batch b p, get-add_writes ns ns' key ws h b batch' q)

get-add_ns_sets :
    (ns key : GoString) (sets : List NsRwSet) (h : Height) (batch batch' : UpdateBatch)
    → add_ns_sets_to_batch sets h batch ≡ ok batch'
    → StateDb.get ns key batch' ≡ last_of_sets ns key sets h (StateDb.get ns key batch)
unfolding add_ns_sets_to_batch
get-add_ns_sets ns key [] h batch batch' e = ap (λ x. StateDb.get ns key x) (sym (ok_inj e))
get-add_ns_sets ns key (s ∷ sets) h batch batch' e =
    let (b, p, q) =
      >>=-eq-ok (add_writes_to_batch s.name_space s.kv_rw_set.writes h batch)
        (λ x. add_ns_sets_to_batch sets h x) e in
    get-add_ns_sets ns key sets h b batch' q
    ∙ ap (λ x. last_of_sets ns key sets h x)
        (get-add_writes s.name_space ns key s.kv_rw_set.writes h batch b p)

IsWf-add_write :
    (ns : GoString) (w : KvWrite) (h : Height) (batch batch' : UpdateBatch)
    → add_write_to_batch ns w h batch ≡ ok batch'
    → IsWf batch
    → IsWf batch'
unfolding add_write_to_batch
IsWf-add_write ns w h batch batch' e wf = elim (Bool-cases w.is_delete) [
  | inl d ↦ subst IsWf (ok_inj (rw d at e)) (IsWf-delete ns w.key (some h) batch wf)
  | inr d ↦ elim (Bool-cases (is_computed w.key)) [
    | inl c ↦ subst IsWf (ok_inj (rw (d, c) at e)) wf
    | inr c ↦ IsWf-put ns w.key w.value (some h) batch batch' (rw (d, c) at e) wf
  ]
]

IsWf-add_writes :
    (ns : GoString) (ws : List KvWrite) (h : Height) (batch batch' : UpdateBatch)
    → add_writes_to_batch ns ws h batch ≡ ok batch'
    → IsWf batch
    → IsWf batch'
unfolding add_writes_to_batch
IsWf-add_writes ns [] h batch batch' e wf = subst IsWf (ok_inj e) wf
IsWf-add_writes ns (w ∷ ws) h batch batch' e wf =
    let (b, p, q) =
      >>=-eq-ok (add_write_to_batch ns w h batch) (λ x. add_writes_to_batch ns ws h x) e in
    IsWf-add_writes ns ws h b batch' q (IsWf-add_write ns w h batch b p wf)

IsWf-add_ns_sets :
    (sets : List NsRwSet) (h : Height) (batch batch' : UpdateBatch)
    → add_ns_sets_to_batch sets h batch ≡ ok batch'
    → IsWf batch
    → IsWf batch'
unfolding add_ns_sets_to_batch
IsWf-add_ns_sets [] h batch batch' e wf = subst IsWf (ok_inj e) wf
IsWf-add_ns_sets (s ∷ sets) h batch batch' e wf =
    let (b, p, q) =
      >>=-eq-ok (add_writes_to_batch s.name_space s.kv_rw_set.writes h batch)
        (λ x. add_ns_sets_to_batch sets h x) e in
    IsWf-add_ns_sets sets h b batch' q
      (IsWf-add_writes s.name_space s.kv_rw_set.writes h batch b p wf)

-- Every write that reaches `Put` has a value.
abbrev pub HasValue : KvWrite → Type 0
HasValue w = w.is_delete ≡ false → is_computed w.key ≡ false → is_some w.value ≡ true

abbrev pub HaveValues : List NsRwSet → Type 0
HaveValues [] = Unit
HaveValues (s ∷ sets) = All HasValue s.kv_rw_set.writes × HaveValues sets

put-ok :
    (ns key : GoString) (value : Option GoString) (version : Option Height) (batch : UpdateBatch)
    → is_some value ≡ true
    → (batch' : UpdateBatch) × (put ns key value version batch ≡ ok batch')
put-ok ns key none version batch h = cc
put-ok ns key (some value) version batch h =
    let (b, made, g) = get-put ns key ns key value version batch in (b, made)

add_write-ok :
    (ns : GoString) (w : KvWrite) (h : Height) (batch : UpdateBatch)
    → HasValue w
    → (batch' : UpdateBatch) × (add_write_to_batch ns w h batch ≡ ok batch')
unfolding add_write_to_batch
add_write-ok ns w h batch v = elim (Bool-cases w.is_delete) [
  | inl d ↦ (delete ns w.key (some h) batch, rw d refl)
  | inr d ↦ elim (Bool-cases (is_computed w.key)) [
    | inl c ↦ (batch, rw (d, c) refl)
    | inr c ↦ rw (d, c) (put-ok ns w.key w.value (some h) batch (v d c))
  ]
]

add_writes-ok :
    (ns : GoString) (ws : List KvWrite) (h : Height) (batch : UpdateBatch)
    → All HasValue ws
    → (batch' : UpdateBatch) × (add_writes_to_batch ns ws h batch ≡ ok batch')
unfolding add_writes_to_batch
add_writes-ok ns [] h batch v = (batch, refl)
add_writes-ok ns (w ∷ ws) h batch v =
    let (b, e) = add_write-ok ns w h batch v.0 in
    let (b', e') = add_writes-ok ns ws h b v.1 in (b', rw e e')

add_ns_sets-ok :
    (sets : List NsRwSet) (h : Height) (batch : UpdateBatch)
    → HaveValues sets
    → (batch' : UpdateBatch) × (add_ns_sets_to_batch sets h batch ≡ ok batch')
unfolding add_ns_sets_to_batch
add_ns_sets-ok [] h batch v = (batch, refl)
add_ns_sets-ok (s ∷ sets) h batch v =
    let (b, e) = add_writes-ok s.name_space s.kv_rw_set.writes h batch v.0 in
    let (b', e') = add_ns_sets-ok sets h b v.1 in (b', rw e e')

-- Writing a transaction's sets to the batch succeeds where every write that is neither a deletion
-- nor a computed write has a value. Then every key holds what the last write of it says, a deletion
-- mark or a value at the transaction's height; a key that is not written, or only as a computed
-- write, keeps its entry; and a well-formed batch stays well-formed.
pub add_write_set_to_batch_lem :
    (tx : TxRwSet) (h : Height) (batch : UpdateBatch)
    → HaveValues tx.ns_rw_sets
    → (batch' : UpdateBatch) × (add_write_set_to_batch tx h batch ≡ ok batch')
      × ((ns key : GoString)
          → StateDb.get ns key batch'
            ≡ last_of_sets ns key tx.ns_rw_sets h (StateDb.get ns key batch))
      × (IsWf batch → IsWf batch')
unfolding add_write_set_to_batch
add_write_set_to_batch_lem tx h batch v =
    let (b, e) = add_ns_sets-ok tx.ns_rw_sets h batch v in
    (
      b,
      e,
      λ ns key. get-add_ns_sets ns key tx.ns_rw_sets h batch b e,
      λ wf. IsWf-add_ns_sets tx.ns_rw_sets h batch b e wf,
    )
