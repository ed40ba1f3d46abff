-- ===== src/RangeQueryValidator/Results.antt =====
-- The raw results of a range query are accepted exactly if they are those that were recorded.
use mathlib.Core.Path.{ap₂}
use eloan_peer.Prelude.{
  ◌≡◌, refl, sym, ◌∙◌, ◌↔◌, Bool, true, false, Option, none, some, List, [], ◌∷◌, ok, ◌>>=◌, arith,
  Bool-cases, inl, inr,
}
use eloan_peer.Prelude.GoString.{GoString, str_eq, str_eq_iff}
use eloan_peer.Version.{Height, IsUint64, are_same}
use eloan_peer.Version.Order.{Fits, are_same_iff}
use eloan_peer.StateDb.{VersionedKv}
use eloan_peer.StateDb.Iterator.{Item, Yields}
use eloan_peer.CombinedIterator.Next.{Ahead, head_item, next-Ahead}
use eloan_peer.Rwset.{KvRead, ProtoVersion, RangeQueryInfo, new_version}
use eloan_peer.RangeQueryValidator.{
  convert_to_version_height, get_raw_reads, same_read, results_loop, results_validate,
}

-- A key with the version that was read of it.
abbrev pub Seen : Type 0
Seen = GoString × Option Height

abbrev pub recorded : List KvRead → List Seen
recorded [] = []
recorded (r ∷ rs) = (r.key, new_version r.version) ∷ recorded rs

abbrev pub observed : List VersionedKv → List Seen
observed [] = []
observed (x ∷ xs) = (x.key, x.version) ∷ observed xs

abbrev pub VersionFits : Option ProtoVersion → Type 0
VersionFits none = ⊥
VersionFits (some v) = IsUint64 (record { block_num = v.block_num; tx_num = v.tx_num })

-- Every recorded read has a version, whose numbers are uint64; so have the versions in the state.
abbrev pub AreRecorded : List KvRead → Type 0
AreRecorded [] = Unit
AreRecorded (r ∷ rs) = VersionFits r.version × AreRecorded rs

abbrev pub AreVersioned : List VersionedKv → Type 0
AreVersioned [] = Unit
AreVersioned (x ∷ xs) = Fits x.version × AreVersioned xs

same_version :
    (o : Option ProtoVersion) (v : Option Height)
    → VersionFits o
    → Fits v
    → (b : Bool) × ((convert_to_version_height o >>= λ h. ok (are_same v (some h))) ≡ ok b)
      × ((b ≡ true) ↔ (v ≡ new_version o))
unfolding convert_to_version_height new_version
same_version none v f g = absurd f
same_version (some p) v f g =
    let h : Height = record { block_num = p.block_num; tx_num = p.tx_num } in
    (are_same v (some h), refl, are_same_iff v (some h) g f)

observed_head :
    (r : KvRead) (x : VersionedKv) (rs : List KvRead) (xs : List VersionedKv)
    → observed (x ∷ xs) ≡ recorded (r ∷ rs)
    → (x.key ≡ r.key) × (x.version ≡ new_version r.version)
observed_head r x rs xs e = ground arith

observed_tail :
    (r : KvRead) (x : VersionedKv) (rs : List KvRead) (xs : List VersionedKv)
    → observed (x ∷ xs) ≡ recorded (r ∷ rs)
    → observed xs ≡ recorded rs
observed_tail r x rs xs e = ground arith

module _ {S : Type 0} (next : S → Item × S) where
  same_read_lem :
      (r : KvRead) (x : VersionedKv)
      → VersionFits r.version
      → Fits x.version
      → (b : Bool) × (same_read next r x ≡ ok b)
        × ((b ≡ true) ↔ ((x.key ≡ r.key) × (x.version ≡ new_version r.version)))
  unfolding same_read
  same_read_lem r x f g = elim (Bool-cases (str_eq x.key r.key)) [
    | inl e ↦
        (let (b, q, i) = same_version r.version x.version f g in
          (b, rw e q, (λ t. ((str_eq_iff x.key r.key).0 e, i.0 t), λ t. i.1 t.1)))
    | inr e ↦ (false, rw e, (λ t. cc, λ t. sym e ∙ (str_eq_iff x.key r.key).1 t.0))
  ]

  -- The loop accepts a list of recorded reads exactly if the iterator's items are the same.
  abbrev Accepts : List KvRead → List VersionedKv → S → Type 0
  Accepts reads zs itr =
      (b : Bool) × (results_loop next reads (head_item zs) itr ≡ ok b)
      × ((b ≡ true) ↔ (observed zs ≡ recorded reads))

  Accepts-cons :
      (r : KvRead) (rs : List KvRead) (x : VersionedKv) (xs : List VersionedKv) (itr : S)
      → ((next itr).0 ≡ ok (head_item xs))
      → (same : Bool) → same_read next r x ≡ ok same
      → ((same ≡ true) ↔ ((x.key ≡ r.key) × (x.version ≡ new_version r.version)))
      → Accepts rs xs (next itr).1
      → Accepts (r ∷ rs) (x ∷ xs) itr
  unfolding results_loop
  Accepts-cons r rs x xs itr n false e i a =
      (false, rw (e, results_loop) refl, (λ t. cc, λ t. i.1 (observed_head r x rs xs t)))
  Accepts-cons r rs x xs itr n true e i a = (
    a.0,
    rw (e, results_loop) (rw n a.1),
    (
      λ t. ap₂ (λ k l. k ∷ l) (ap₂ (λ k v. (k, v)) (i.0 refl).0 (i.0 refl).1) (a.2.0 t),
      λ t. a.2.1 (observed_tail r x rs xs t),
    ),
  )

  results_loop-Accepts :
      (reads : List KvRead) (zs : List VersionedKv) (itr : S)
      → Ahead next zs (head_item zs) itr
      → AreRecorded reads
      → AreVersioned zs
      → Accepts reads zs itr
  unfolding results_loop
  results_loop-Accepts [] [] itr a f g = (true, refl, (λ t. refl, λ t. refl))
  results_loop-Accepts [] (x ∷ xs) itr a f g = (false, refl, (λ t. cc, λ t. cc))
  results_loop-Accepts (r ∷ rs) [] itr a f g = (false, refl, (λ t. cc, λ t. cc))
  results_loop-Accepts (r ∷ rs) (x ∷ xs) itr a f g =
      let (same, e, i) = same_read_lem r x f.0 g.0 in
      let (n, left) = next-Ahead next xs itr a.1 in
      Accepts-cons r rs x xs itr n same e i (results_loop-Accepts rs xs (next itr).1 left f.1 g.1)

  -- Over an iterator that gives the items `zs`, `validate` returns without an error, and accepts
  -- exactly if the keys and versions of `zs`, in order, are those that were recorded. The recorded
  -- reads have versions, and all version numbers are uint64.
  pub results_validate_iff :
      (info : RangeQueryInfo) (zs : List VersionedKv) (itr : S)
      → Yields next zs itr
      → AreRecorded (get_raw_reads info.reads_info)
      → AreVersioned zs
      → (b : Bool) × (results_validate next info itr ≡ ok b)
        × ((b ≡ true) ↔ (observed zs ≡ recorded (get_raw_reads info.reads_info)))
  unfolding results_validate
  results_validate_iff info zs itr y f g =
      let (n, left) = next-Ahead next zs itr y in
      let (b, e, i) =
        results_loop-Accepts (get_raw_reads info.reads_info) zs (next itr).1 left f g in
      (b, rw n e, i)
