-- ===== src/StateDb/Wf.antt =====
-- Well-formed update batches: no map of a namespace repeats a key.
use eloan_peer.Prelude.{◌≡◌, Option, none, some, [], ok, Bool-cases, inl, inr}
use eloan_peer.Prelude.GoString.{GoString, str_eq}
use eloan_peer.Prelude.Assoc.{Assoc, keys, lookup, insert, Distinct, Distinct-insert}
use eloan_peer.Version.{Height}
use eloan_peer.StateDb.{
  UpdateBatch, VersionedValue, new_update_batch, ns_or_new, insert2, get_or_create, put, delete,
}
use eloan_peer.StateDb.Batch.{ns_or_new-insert}

module _ {ℓ} {V : Type ℓ} where
  abbrev pub AllDistinct : Assoc (Assoc V) → Type 0
  AllDistinct m = (ns : GoString) → Distinct (keys (ns_or_new ns m))

  pub AllDistinct-insert :
      (ns : GoString) (u : Assoc V) (m : Assoc (Assoc V))
      → Distinct (keys u)
      → AllDistinct m
      → AllDistinct (insert ns u m)
  AllDistinct-insert ns u m h a ns' = elim (Bool-cases (str_eq ns ns')) [
    | inl e ↦ rw (ns_or_new-insert ns ns' u m, e) h
    | inr e ↦ rw (ns_or_new-insert ns ns' u m, e) (a ns')
  ]

  pub AllDistinct-insert2 :
      (ns key : GoString) (v : V) (m : Assoc (Assoc V))
      → AllDistinct m
      → AllDistinct (insert2 ns key v m)
  unfolding insert2
  AllDistinct-insert2 ns key v m a =
      AllDistinct-insert ns (insert key v (ns_or_new ns m)) m
        (Distinct-insert key v (ns_or_new ns m) (a ns)) a

  pub AllDistinct-get_or_create :
      (ns : GoString) (m : Assoc (Assoc V)) → AllDistinct m → AllDistinct (get_or_create ns m)
  unfolding get_or_create
  AllDistinct-get_or_create ns m a = AllDistinct-insert ns (ns_or_new ns m) m (a ns) a

pub AllDistinct-nil {ℓ} : (V : Type ℓ) → AllDistinct {V = V} []
unfolding ns_or_new lookup keys
AllDistinct-nil V ns = tt

pub record IsWf (batch : UpdateBatch) : Type 0 where
  pub updates : AllDistinct batch.updates
  pub cals : AllDistinct batch.cals

pub IsWf-new : IsWf new_update_batch
unfolding new_update_batch
IsWf-new = record {
  updates = AllDistinct-nil VersionedValue;
  cals = AllDistinct-nil VersionedValue;
}

pub IsWf-put :
    (ns key : GoString) (value : Option GoString) (version : Option Height)
    (batch batch' : UpdateBatch)
    → put ns key value version batch ≡ ok batch'
    → IsWf batch
    → IsWf batch'
unfolding put
IsWf-put ns key none version batch batch' e h = cc
IsWf-put ns key (some value) version batch batch' e h =
    let q : record batch {
      updates = insert2 ns key (record { value = some value; version = version }) batch.updates;
    }
        ≡ batch' =
      cc in
    rw (← q) (record {
      updates =
          AllDistinct-insert2 ns key (record { value = some value; version = version })
            batch.updates h.updates;
      cals = h.cals;
    })

pub IsWf-delete :
    (ns key : GoString) (version : Option Height) (batch : UpdateBatch)
    → IsWf batch
    → IsWf (delete ns key version batch)
unfolding delete
IsWf-delete ns key version batch h = record {
  updates =
      AllDistinct-insert2 ns key (record { value = none; version = version }) batch.updates
        h.updates;
  cals = h.cals;
}
