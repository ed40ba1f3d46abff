-- ===== src/Validator/Ranges.antt =====
-- The check of a range query: `validateRangeQuery` of state_based_validator.go, over the state as
-- it is after the block's earlier writes.
use mathlib.Core.Path.{subst}
use eloan_peer.Prelude.{
  ℕ, ◌<◌, ◌≡◌, refl, sym, ◌∙◌, ◌↔◌, Bool, true, false, not, Option, none, some, List, [], ◌∷◌,
  Result, ok, if◌then◌else◌, arith, Bool-cases, inl, inr,
}
use eloan_peer.Prelude.GoString.{GoString, str_eq, str_eq_refl, str_eq→≡}
use eloan_peer.Version.Order.{Fits}
use eloan_peer.StateDb
use eloan_peer.StateDb.{UpdateBatch, VersionedValue, VersionedKv}
use eloan_peer.StateDb.Wf.{IsWf}
use eloan_peer.StateDb.Iterator.{is_empty}
use eloan_peer.StateDb.Iterator.Range.{find_kv, to_item}
use eloan_peer.VersionedDb.{VersionedDb, Represents}
use eloan_peer.CombinedIterator.{is_delete, combined_next}
use eloan_peer.CombinedIterator.Merge.{AboveKv, live_item}
use eloan_peer.CombinedIterator.Overlay.{IncreasingKv, find_kv-Above}
use eloan_peer.CombinedIterator.Scan.{overlay_value}
use eloan_peer.CombinedIterator.View.{IsOverlay, in_window}
use eloan_peer.CombinedIterator.Construct.{new_combined_iterator-IsOverlay}
use eloan_peer.Rwset.{KvRead, RangeQueryInfo, raw_reads}
use eloan_peer.Rwset.MerkleTree.{Hasher}
use eloan_peer.RangeQueryValidator.{get_raw_reads}
use eloan_peer.RangeQueryValidator.Results.{
  AreRecorded, AreVersioned, observed, recorded, results_validate_iff,
}
use eloan_peer.Validator.{committed_version, validate_range_query}

live_version :
    (y x : VersionedKv) → (if is_delete y then none else some y) ≡ some x → y.version ≡ x.version
live_version y x e = elim (Bool-cases (is_delete y)) [
  | inl d ↦ ground (arith, d)
  | inr d ↦ ground (arith, d)
]

live_item-Fits :
    (ns k : GoString) (o : Option VersionedValue) (x : VersionedKv)
    → Fits (committed_version o)
    → live_item (to_item ns k o) ≡ some x
    → Fits x.version
unfolding live_item
live_item-Fits ns k none x f e = cc
live_item-Fits ns k (some v) x f e =
    subst Fits
      (live_version (record { namespace = ns; key = k; value = v.value; version = v.version }) x e)
      f

overlay_value-Fits :
    (o committed : Option VersionedValue)
    → Fits (committed_version o)
    → Fits (committed_version committed)
    → Fits (committed_version (overlay_value o committed))
overlay_value-Fits none committed f g = g
overlay_value-Fits (some v) committed f g = f

find_kv-tail :
    (x : VersionedKv) (xs : List VersionedKv)
    → IncreasingKv (x ∷ xs)
    → (k : GoString) (y : VersionedKv) → find_kv k xs ≡ some y
    → find_kv k (x ∷ xs) ≡ some y
unfolding find_kv
find_kv-tail x xs h k y e = elim (Bool-cases (str_eq x.key k)) [
  | inl same ↦
      (let q : none ≡ some y =
          sym (find_kv-Above k xs (subst (λ j. AboveKv j xs) (str_eq→≡ x.key k same) h.0)) ∙ e in
        cc)
  | inr other ↦ rw other e
]

AreVersioned-of_finds :
    (xs : List VersionedKv)
    → IncreasingKv xs
    → ((k : GoString) (x : VersionedKv) → find_kv k xs ≡ some x → Fits x.version)
    → AreVersioned xs
unfolding find_kv
AreVersioned-of_finds [] h f = tt
AreVersioned-of_finds (x ∷ xs) h f = (
  f x.key x (rw (str_eq_refl x.key) refl),
  AreVersioned-of_finds xs h.1 (λ k y e. f k y (find_kv-tail x xs h k y e)),
)

-- The record of a range query that holds its raw reads.
abbrev pub raw_query : GoString → GoString → Bool → List KvRead → RangeQueryInfo
raw_query start_key end_key itr_exhausted reads = record {
  start_key = start_key;
  end_key = end_key;
  itr_exhausted = itr_exhausted;
  reads_info = raw_reads reads;
}

module _ (db : VersionedDb) (at : GoString → GoString → Option VersionedValue)
    (rep : Represents db at) (serialize : List KvRead → Result GoString) (hasher : Hasher)
    (ns : GoString) (updates : UpdateBatch) where
  -- The version numbers of the state and of the batch are uint64.
  abbrev pub VersionsFit : Type 0
  VersionsFit =
      (k : GoString)
      → Fits (committed_version (at ns k)) × Fits (committed_version (StateDb.get ns k updates))

  in_window-Fits :
      (b : Bool) (k : GoString) (x : VersionedKv)
      → VersionsFit
      → (if b
          then live_item (to_item ns k (overlay_value (StateDb.get ns k updates) (at ns k)))
          else none)
        ≡ some x
      → Fits x.version
  in_window-Fits true k x f e =
      live_item-Fits ns k (overlay_value (StateDb.get ns k updates) (at ns k)) x
        (overlay_value-Fits (StateDb.get ns k updates) (at ns k) (f k).1 (f k).0) e
  in_window-Fits false k x f e = cc

  IsOverlay-AreVersioned :
      (start_key end_key : GoString) (b : Bool) (zs : List VersionedKv)
      → VersionsFit
      → IsOverlay ns start_key end_key b (at ns) updates zs
      → AreVersioned zs
  IsOverlay-AreVersioned start_key end_key b zs f o =
      AreVersioned-of_finds zs o.increasing
        (λ k x e. in_window-Fits (in_window start_key end_key b k) k x f (sym (o.finds k) ∙ e))

  -- Over a database that answers from the state `at`, a range query that recorded its raw reads is
  -- checked against the state with the block's earlier writes, a well-formed batch, laid over it:
  -- with enough fuel the check returns without an error, and it says valid exactly if the live keys
  -- of the range and their versions, in key order, are those recorded. The end key counts as in the
  -- range where the simulation had not exhausted its iterator, and is then not empty. The version
  -- numbers are uint64, and every recorded read has one.
  pub validate_range_query_iff :
      (start_key end_key : GoString) (itr_exhausted : Bool) (reads : List KvRead)
      → IsWf updates
      → VersionsFit
      → AreRecorded reads
      → (not itr_exhausted ≡ true → is_empty end_key ≡ false)
      → (zs : List VersionedKv) × (bound : ℕ) × IsOverlay ns start_key end_key
          (not itr_exhausted)
          (at ns)
          updates
          zs
        × ((fuel : ℕ)
            → bound < fuel
            → (b : Bool) × (validate_range_query db serialize hasher fuel ns
                  (raw_query start_key end_key itr_exhausted reads)
                  updates
                ≡ ok b)
              × ((b ≡ true) ↔ (observed zs ≡ recorded reads)))
  unfolding validate_range_query get_raw_reads
  validate_range_query_iff start_key end_key itr_exhausted reads wf f g h =
      let (itr, zs, bound, made, yields, overlay) =
        new_combined_iterator-IsOverlay db at rep updates ns start_key end_key (not itr_exhausted)
          wf h in
      (
        zs,
        bound,
        overlay,
        λ fuel k.
            (let (b, e, i) =
                results_validate_iff (combined_next db fuel)
                  (raw_query start_key end_key itr_exhausted reads) zs itr (yields fuel k) g
                  (IsOverlay-AreVersioned start_key end_key (not itr_exhausted) zs f overlay) in
              (b, rw (made, validate_range_query) e, i)),
      )
