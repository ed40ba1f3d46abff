-- ===== src/StateDb/Batch.antt =====
-- Laws of the update batch of statedb.go.
use eloan_peer.Prelude.{
  ◌≡◌, refl, ◌&&◌, Option, none, some, ok, if◌then◌else◌, is_some, Bool-cases, Option-cases, inl,
  inr,
}
use eloan_peer.Prelude.GoString.{GoString, str_eq, str_eq→≡}
use eloan_peer.Prelude.Assoc.{Assoc, lookup, insert, lookup-insert}
use eloan_peer.Version.{Height}
use eloan_peer.StateDb.{
  UpdateBatch, VersionedValue, lookup2, insert2, ns_or_new, get, exists, put, delete,
}

module _ {ℓ} {V : Type ℓ} where
  pub lookup2-ns_or_new :
      (ns key : GoString) (m : Assoc (Assoc V)) → lookup2 ns key m ≡ lookup key (ns_or_new ns m)
  unfolding lookup2 ns_or_new
  lookup2-ns_or_new ns key m = elim (Option-cases (lookup ns m)) [
    | inl e ↦ rw (e, lookup2, ns_or_new) (unfold lookup in refl)
    | inr (u, e) ↦ rw (e, lookup2, ns_or_new)
  ]

  pub ns_or_new-some :
      (ns : GoString) (m : Assoc (Assoc V)) (u : Assoc V)
      → lookup ns m ≡ some u
      → ns_or_new ns m ≡ u
  unfolding ns_or_new
  ns_or_new-some ns m u e = rw (e, ns_or_new)

  pub ns_or_new-insert :
      (ns ns' : GoString) (u : Assoc V) (m : Assoc (Assoc V))
      → ns_or_new ns' (insert ns u m) ≡ (if str_eq ns ns' then u else ns_or_new ns' m)
  unfolding ns_or_new
  ns_or_new-insert ns ns' u m = elim (Bool-cases (str_eq ns ns')) [
    | inl e ↦ rw (lookup-insert ns ns' u m, e, ns_or_new)
    | inr e ↦ rw (lookup-insert ns ns' u m, e, ns_or_new)
  ]

  pub lookup2-insert2 :
      (ns key ns' key' : GoString) (v : V) (m : Assoc (Assoc V))
      → lookup2 ns' key' (insert2 ns key v m)
        ≡ (if str_eq ns ns' && str_eq key key' then some v else lookup2 ns' key' m)
  unfolding insert2
  lookup2-insert2 ns key ns' key' v m = elim (Bool-cases (str_eq ns ns')) [
    | inl e ↦ rw (
      lookup2-ns_or_new ns' key' (insert ns (insert key v (ns_or_new ns m)) m),
      ns_or_new-insert ns ns' (insert key v (ns_or_new ns m)) m,
      e,
      lookup-insert key key' v (ns_or_new ns m),
      lookup2-ns_or_new ns' key' m,
      str_eq→≡ ns ns' e,
    )
    | inr e ↦ rw (
      lookup2-ns_or_new ns' key' (insert ns (insert key v (ns_or_new ns m)) m),
      ns_or_new-insert ns ns' (insert key v (ns_or_new ns m)) m,
      e,
      lookup2-ns_or_new ns' key' m,
    )
  ]

-- Putting a non-nil value succeeds, and every key then reads as written last.
pub get-put :
    (ns key ns' key' value : GoString) (version : Option Height) (batch : UpdateBatch)
    → (batch' : UpdateBatch) × (put ns key (some value) version batch ≡ ok batch')
      × (get ns' key' batch' ≡ (
          if str_eq ns ns' && str_eq key key'
          then some (record { value = some value; version = version })
          else get ns' key' batch))
unfolding put get
get-put ns key ns' key' value version batch =
    let v : VersionedValue = record { value = some value; version = version } in
    (
      record batch { updates = insert2 ns key v batch.updates },
      refl,
      lookup2-insert2 ns key ns' key' v batch.updates,
    )

-- After a deletion every key reads as before, but the one that was deleted reads as a deletion mark
-- of that version.
pub get-delete :
    (ns key ns' key' : GoString) (version : Option Height) (batch : UpdateBatch)
    → get ns' key' (delete ns key version batch) ≡ (
        if str_eq ns ns' && str_eq key key'
        then some (record { value = none; version = version })
        else get ns' key' batch)
unfolding delete get
get-delete ns key ns' key' version batch =
    lookup2-insert2 ns key ns' key' (record { value = none; version = version }) batch.updates

pub exists-get :
    (ns key : GoString) (batch : UpdateBatch) → exists ns key batch ≡ is_some (get ns key batch)
unfolding exists get
exists-get ns key batch = refl
