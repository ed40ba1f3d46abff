-- ===== src/Validator/Reads.antt =====
-- The check of a read set: `validateReadSet` of state_based_validator.go.

use eloan_peer.Prelude.{
  ◌≡◌, refl, sym, ◌∙◌, ◌↔◌, Bool, true, false, Option, none, some, List, [], ◌∷◌, ok, is_some,
  Bool-cases, inl, inr,
}
use eloan_peer.Prelude.GoString.{GoString}
use eloan_peer.Version.{are_same}
use eloan_peer.Version.Order.{Fits, are_same_iff}
use eloan_peer.StateDb
use eloan_peer.StateDb.{UpdateBatch, VersionedValue, exists}
use eloan_peer.StateDb.Batch.{exists-get}
use eloan_peer.VersionedDb.{VersionedDb, Represents}
use eloan_peer.Rwset.{KvRead, new_version}
use eloan_peer.Validator.{committed_version, validate_kv_read, validate_read_set}

is_some-false {ℓ} : {A : Type ℓ} (o : Option A) → (is_some o ≡ false) ↔ (o ≡ none)
is_some-false none = (λ e. refl, λ e. refl)
is_some-false (some a) = (λ e. cc, λ e. cc)

elim_true : true ≡ false → ⊥
elim_true e = cc

module _ (db : VersionedDb) (at : GoString → GoString → Option VersionedValue) (ns : GoString)
    (updates : UpdateBatch) where
  -- A read is current: the block has no earlier write of its key, and the committed version is the
  -- one that was read.
  abbrev pub IsCurrent : KvRead → Type 0
  IsCurrent r =
      (StateDb.get ns r.key updates ≡ none)
      × (committed_version (at ns r.key) ≡ new_version r.version)

  abbrev pub AreCurrent : List KvRead → Type 0
  AreCurrent [] = Unit
  AreCurrent (r ∷ rs) = IsCurrent r × AreCurrent rs

  -- The version numbers that are compared are uint64.
  abbrev pub ReadsFit : List KvRead → Type 0
  ReadsFit [] = Unit
  ReadsFit (r ∷ rs) =
      Fits (committed_version (at ns r.key)) × Fits (new_version r.version) × ReadsFit rs

  no_write :
      (r : KvRead) {b : Bool}
      → exists ns r.key updates ≡ true
      → StateDb.get ns r.key updates ≡ none
      → b ≡ true
  no_write r e t =
      let x : true ≡ false =
        sym e ∙ exists-get ns r.key updates ∙ (is_some-false (StateDb.get ns r.key updates)).1 t in
      absurd (elim_true x)

  validate_kv_read_lem :
      Represents db at
      → (r : KvRead) → Fits (committed_version (at ns r.key))
      → Fits (new_version r.version)
      → (b : Bool) × (validate_kv_read db ns r updates ≡ ok b) × ((b ≡ true) ↔ IsCurrent r)
  unfolding validate_kv_read
  validate_kv_read_lem rep r f g = elim (Bool-cases (exists ns r.key updates)) [
    | inl e ↦ (false, rw e, (λ t. cc, λ t. no_write r e t.0))
    | inr e ↦
        (let i = are_same_iff (committed_version (at ns r.key)) (new_version r.version) f g in
          (
            are_same (committed_version (at ns r.key)) (new_version r.version),
            rw (e, rep.state ns r.key),
            (
              λ t. (
                (is_some-false (StateDb.get ns r.key updates)).0
                    (sym (exists-get ns r.key updates) ∙ e),
                i.0 t,
              ),
              λ t. i.1 t.1,
            ),
          ))
  ]

  abbrev Checked : List KvRead → Type 0
  Checked reads =
      (b : Bool) × (validate_read_set db ns reads updates ≡ ok b) × ((b ≡ true) ↔ AreCurrent reads)

  read_set-cons :
      (r : KvRead) (rs : List KvRead) (b : Bool)
      → validate_kv_read db ns r updates ≡ ok b
      → ((b ≡ true) ↔ IsCurrent r)
      → Checked rs
      → Checked (r ∷ rs)
  unfolding validate_read_set
  read_set-cons r rs false e i c = (false, rw (e, validate_read_set) refl, (λ t. cc, λ t. i.1 t.0))
  read_set-cons r rs true e i c =
      (c.0, rw (e, validate_read_set) c.1, (λ t. (i.0 refl, c.2.0 t), λ t. c.2.1 t.1))

  -- Over a database that answers from the state `at`, and with uint64 version numbers, the check of
  -- a read set returns without an error; it says valid exactly if no key read has an earlier write
  -- in the block's batch and every committed version, or its absence, is the one that was read.
  pub validate_read_set_iff :
      Represents db at
      → (reads : List KvRead) → ReadsFit reads
      → (b : Bool) × (validate_read_set db ns reads updates ≡ ok b)
        × ((b ≡ true) ↔ AreCurrent reads)
  unfolding validate_read_set
  validate_read_set_iff rep [] f = (true, refl, (λ t. tt, λ t. refl))
  validate_read_set_iff rep (r ∷ rs) f =
      let (b, e, i) = validate_kv_read_lem rep r f.0 f.1 in
      read_set-cons r rs b e i (validate_read_set_iff rep rs f.2)
