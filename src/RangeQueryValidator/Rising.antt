-- ===== src/RangeQueryValidator/Rising.antt =====
-- The hashed results of a range query where more results have come at validation: the tree that is
-- rebuilt rises above the recorded level.
use mathlib.Core.Path.{subst}
use eloan_peer.Prelude.{
  ℕ, suc, ◌∙◌, ◌<◌, ◌≡◌, refl, sym, ap, length, arith, true, Option, some, List, [], ◌∷◌, ok, err,
  panic, Result,
}
use eloan_peer.Prelude.GoString.{GoString, str_eq_refl}
use eloan_peer.StateDb.{VersionedKv}
use eloan_peer.StateDb.Iterator.{Item, Yields}
use eloan_peer.Rwset.{KvRead, QueryReadsMerkleSummary, new_kv_read}
use eloan_peer.Rwset.MerkleTree.{Hasher, new_merkle_tree, update, done, get_summery}
use eloan_peer.Rwset.ResultsHelper.{
  ResultsHelper, new_results_helper, add_result, add_results, helper_done, get_merkle_summary,
}
use eloan_peer.RangeQueryValidator.{
  compare_summaries, go_on, summaries_of, hash_loop, hash_validate,
}
use eloan_peer.RangeQueryValidator.Hashes.{reads_of, verdict_of, hash_validate_sound}

module _ {S : Type 0} (next : S → Item × S) (bytes_of : List KvRead → GoString)
    (hash : GoString → GoString) where
  abbrev serialize : List KvRead → Result GoString
  serialize rs = ok (bytes_of rs)

  abbrev hasher : Hasher
  hasher b = ok (hash b)

  abbrev hash_of : VersionedKv → VersionedKv → VersionedKv → GoString
  hash_of x y z = hash (bytes_of (reads_of (x ∷ y ∷ z ∷ [])))

  -- The summary that a simulation records of the results that it has read.
  abbrev pub recorded_of : List VersionedKv → ResultsHelper → Option QueryReadsMerkleSummary
  recorded_of xs helper =
      let f = helper_done serialize hasher (add_results serialize hasher (reads_of xs) helper) in
      f.summary

  abbrev two_hashes : GoString → GoString → QueryReadsMerkleSummary
  two_hashes a b = record { max_degree = 2; max_level = 1; max_level_hashes = a ∷ b ∷ [] }

  abbrev made : ResultsHelper
  made = record {
    pending_results = [];
    mt = some (record { tree = λ l. []; max_level = 1; max_degree = 2 });
    max_degree = 2;
    hashing_enabled = true;
  }

  recorded_of_lem :
      (x1 x2 x3 x4 x5 x6 : VersionedKv)
      → recorded_of (x1 ∷ x2 ∷ x3 ∷ x4 ∷ x5 ∷ x6 ∷ []) made
        ≡ some (two_hashes (hash_of x1 x2 x3) (hash_of x4 x5 x6))
  unfolding helper_done add_results add_result update done get_summery
  recorded_of_lem x1 x2 x3 x4 x5 x6 = refl

  abbrev fed : List VersionedKv → ResultsHelper
  fed xs = add_results serialize hasher (reads_of xs) made

  -- A round that goes on.
  goes_on :
      (in_merkle : QueryReadsMerkleSummary) (fuel m m' : ℕ) (helper : ResultsHelper) (itr : S)
      (x : VersionedKv)
      → (next itr).0 ≡ ok (some x)
      → verdict_of next serialize hasher in_merkle m helper x ≡ ok (go_on m')
      → hash_loop next serialize hasher (suc fuel) in_merkle m helper itr
        ≡ hash_loop next serialize hasher fuel in_merkle m'
            (add_result serialize hasher (new_kv_read x.key x.version) helper).1
            (next itr).1
  unfolding hash_loop
  goes_on in_merkle fuel m m' helper itr x e v = rw (e, v, hash_loop) refl

  stops :
      (in_merkle : QueryReadsMerkleSummary) (fuel m : ℕ) (helper : ResultsHelper) (itr : S)
      (x : VersionedKv)
      → (next itr).0 ≡ ok (some x)
      → verdict_of next serialize hasher in_merkle m helper x ≡ err panic
      → hash_loop next serialize hasher (suc fuel) in_merkle m helper itr ≡ err panic
  unfolding hash_loop
  stops in_merkle fuel m helper itr x e v = rw (e, v, hash_loop) refl

  -- The ninth result lifts the tree above the recorded level, where it has one hash, and the third
  -- is read.
  rising_lem :
      (x1 x2 x3 x4 x5 x6 x7 x8 x9 : VersionedKv) (zs : List VersionedKv) (itr : S) (fuel : ℕ)
      → Yields next (x1 ∷ x2 ∷ x3 ∷ x4 ∷ x5 ∷ x6 ∷ x7 ∷ x8 ∷ x9 ∷ zs) itr
      → hash_loop next serialize hasher
          (suc (suc (suc (suc (suc (suc (suc (suc (suc fuel)))))))))
          (two_hashes (hash_of x1 x2 x3) (hash_of x4 x5 x6))
          0
          made
          itr
        ≡ err panic
  unfolding add_results add_result compare_summaries get_merkle_summary get_summery update
      summaries_of
  rising_lem x1 x2 x3 x4 x5 x6 x7 x8 x9 zs itr fuel
        (e1, (e2, (e3, (e4, (e5, (e6, (e7, (e8, (e9, y))))))))) =
      let recorded = two_hashes (hash_of x1 x2 x3) (hash_of x4 x5 x6) in
      let i1 = (next itr).1 in
      let i2 = (next i1).1 in
      let i3 = (next i2).1 in
      let i4 = (next i3).1 in
      let i5 = (next i4).1 in
      let i6 = (next i5).1 in
      let i7 = (next i6).1 in
      let i8 = (next i7).1 in
      goes_on recorded (suc (suc (suc (suc (suc (suc (suc (suc fuel)))))))) 0 0 (fed []) itr x1 e1
        refl
      ∙ goes_on recorded (suc (suc (suc (suc (suc (suc (suc fuel))))))) 0 0 (fed (x1 ∷ [])) i1 x2 e2
          refl
      ∙ goes_on recorded (suc (suc (suc (suc (suc (suc fuel)))))) 0 1 (fed (x1 ∷ x2 ∷ [])) i2 x3 e3
          (rw (str_eq_refl (hash_of x1 x2 x3)) refl)
      ∙ goes_on recorded (suc (suc (suc (suc (suc fuel))))) 1 1 (fed (x1 ∷ x2 ∷ x3 ∷ [])) i3 x4 e4
          refl
      ∙ goes_on recorded (suc (suc (suc (suc fuel)))) 1 1 (fed (x1 ∷ x2 ∷ x3 ∷ x4 ∷ [])) i4 x5 e5
          refl
      ∙ goes_on recorded (suc (suc (suc fuel))) 1 2 (fed (x1 ∷ x2 ∷ x3 ∷ x4 ∷ x5 ∷ [])) i5 x6 e6
          (rw (str_eq_refl (hash_of x4 x5 x6)) refl)
      ∙ goes_on recorded (suc (suc fuel)) 2 2 (fed (x1 ∷ x2 ∷ x3 ∷ x4 ∷ x5 ∷ x6 ∷ [])) i6 x7 e7 refl
      ∙ goes_on recorded (suc fuel) 2 2 (fed (x1 ∷ x2 ∷ x3 ∷ x4 ∷ x5 ∷ x6 ∷ x7 ∷ [])) i7 x8 e8 refl
      ∙ stops recorded fuel 2 (fed (x1 ∷ x2 ∷ x3 ∷ x4 ∷ x5 ∷ x6 ∷ x7 ∷ x8 ∷ [])) i8 x9 e9 refl

  -- Take the summary that a helper of degree two makes of six results. If at validation these six
  -- come first and three or more behind them, `validate` panics, for a marshalling and a hash
  -- function that do not fail and a bound of more rounds than results.
  pub hash_validate_rises :
      (x1 x2 x3 x4 x5 x6 x7 x8 x9 : VersionedKv) (zs : List VersionedKv) (itr : S)
      (helper : ResultsHelper) (in_merkle : QueryReadsMerkleSummary) (fuel : ℕ)
      → new_results_helper true 2 ≡ ok helper
      → recorded_of (x1 ∷ x2 ∷ x3 ∷ x4 ∷ x5 ∷ x6 ∷ []) helper ≡ some in_merkle
      → Yields next (x1 ∷ x2 ∷ x3 ∷ x4 ∷ x5 ∷ x6 ∷ x7 ∷ x8 ∷ x9 ∷ zs) itr
      → length (x1 ∷ x2 ∷ x3 ∷ x4 ∷ x5 ∷ x6 ∷ x7 ∷ x8 ∷ x9 ∷ zs) < fuel
      → hash_validate next serialize hasher fuel in_merkle itr ≡ err panic
  unfolding new_results_helper new_merkle_tree hash_validate
  hash_validate_rises x1 x2 x3 x4 x5 x6 x7 x8 x9 zs itr helper in_merkle fuel e recorded y low =
      let same : made ≡ helper = cc in
      let known : some (two_hashes (hash_of x1 x2 x3) (hash_of x4 x5 x6)) ≡ some in_merkle =
        sym (recorded_of_lem x1 x2 x3 x4 x5 x6)
        ∙ ap (recorded_of (x1 ∷ x2 ∷ x3 ∷ x4 ∷ x5 ∷ x6 ∷ [])) same
        ∙ recorded in
      let equal : two_hashes (hash_of x1 x2 x3) (hash_of x4 x5 x6) ≡ in_merkle = cc in
      subst (λ m. hash_validate next serialize hasher fuel m itr ≡ err panic) equal
        ((hash_validate_sound next serialize hasher
              (x1 ∷ x2 ∷ x3 ∷ x4 ∷ x5 ∷ x6 ∷ x7 ∷ x8 ∷ x9 ∷ zs)
              (two_hashes (hash_of x1 x2 x3) (hash_of x4 x5 x6)) itr made y refl).0
            fuel (suc (length (x1 ∷ x2 ∷ x3 ∷ x4 ∷ x5 ∷ x6 ∷ x7 ∷ x8 ∷ x9 ∷ zs))) low (omega arith)
          ∙ rising_lem x1 x2 x3 x4 x5 x6 x7 x8 x9 zs itr (suc (length zs)) y)
