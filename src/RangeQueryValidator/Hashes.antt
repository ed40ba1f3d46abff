-- ===== src/RangeQueryValidator/Hashes.antt =====
-- The hashed results of a range query: what is accepted, and where the comparison panics.

use eloan_peer.Prelude.{
  ℕ, zero, suc, ◌<◌, ◌≡◌, refl, sym, ◌∙◌, Bool, true, false, Option, none, some, List, [], ◌∷◌,
  Result, ok, err, panic, ◌>>=◌, length, arith,
}
use eloan_peer.Prelude.GoString.{GoString}
use eloan_peer.StateDb.{VersionedKv}
use eloan_peer.StateDb.Iterator.{Item, Yields}
use eloan_peer.Rwset.{KvRead, QueryReadsMerkleSummary, new_kv_read}
use eloan_peer.Rwset.MerkleTree.{Hasher, new_merkle_tree}
use eloan_peer.Rwset.ResultsHelper.{
  ResultsHelper, Final, new_results_helper, add_result, add_results, helper_done,
  get_merkle_summary,
}
use eloan_peer.RangeQueryValidator.{
  Verdict, go_on, mismatch, done_result, summaries_of, hash_loop, hash_validate, summary_equal,
}

abbrev pub reads_of : List VersionedKv → List KvRead
reads_of [] = []
reads_of (x ∷ xs) = new_kv_read x.key x.version ∷ reads_of xs

module _ {S : Type 0} (next : S → Item × S) (serialize : List KvRead → Result GoString)
    (hasher : Hasher) where
  -- A recorded degree below two is an error of `init` that is dropped: unless the iterator fails
  -- first, `validate` panics.
  pub hash_validate_low_degree :
      (fuel : ℕ) (in_merkle : QueryReadsMerkleSummary) (itr : S) (item : Option VersionedKv)
      → in_merkle.max_degree < 2
      → (next itr).0 ≡ ok item
      → hash_validate next serialize hasher fuel in_merkle itr ≡ err panic
  unfolding hash_validate new_results_helper new_merkle_tree
  hash_validate_low_degree fuel in_merkle itr item h e = ground arith

  -- The comparison in one round, of the helper with the new result.
  abbrev pub verdict_of : QueryReadsMerkleSummary → ℕ → ResultsHelper → VersionedKv → Result Verdict
  verdict_of in_merkle matched helper x =
      summaries_of next serialize hasher
        (get_merkle_summary serialize hasher
          (add_result serialize hasher (new_kv_read x.key x.version) helper).1)
        in_merkle matched

  hash_loop-end :
      (fuel : ℕ) (in_merkle : QueryReadsMerkleSummary) (matched : ℕ) (helper : ResultsHelper)
      (itr : S)
      → (next itr).0 ≡ ok none
      → hash_loop next serialize hasher (suc fuel) in_merkle matched helper itr
        ≡ done_result next serialize hasher in_merkle (helper_done serialize hasher helper)
  unfolding hash_loop
  hash_loop-end fuel in_merkle matched helper itr e = rw (e, hash_loop) refl

  after_verdict : ℕ → QueryReadsMerkleSummary → ResultsHelper → S → Result Verdict → Result Bool
  after_verdict fuel in_merkle helper itr r = do
    verdict ← r
    elim verdict [
      | mismatch ↦ ok false
      | go_on matched' ↦ hash_loop next serialize hasher fuel in_merkle matched' helper itr
    ]

  hash_loop-step :
      (fuel : ℕ) (in_merkle : QueryReadsMerkleSummary) (matched : ℕ) (helper : ResultsHelper)
      (itr : S) (x : VersionedKv)
      → (next itr).0 ≡ ok (some x)
      → hash_loop next serialize hasher (suc fuel) in_merkle matched helper itr
        ≡ after_verdict fuel in_merkle
            (add_result serialize hasher (new_kv_read x.key x.version) helper).1
            (next itr).1
            (verdict_of in_merkle matched helper x)
  unfolding hash_loop after_verdict
  hash_loop-step fuel in_merkle matched helper itr x e = rw (e, hash_loop) refl

  done_result-true :
      (in_merkle : QueryReadsMerkleSummary) (f : Final serialize hasher)
      → done_result next serialize hasher in_merkle f ≡ ok true
      → (f.error ≡ none) × (summary_equal in_merkle f.summary ≡ true)
  unfolding done_result
  done_result-true in_merkle f e = ground arith

  after_verdict-true :
      (fuel : ℕ) (in_merkle : QueryReadsMerkleSummary) (helper : ResultsHelper) (itr : S)
      (r : Result Verdict)
      → after_verdict fuel in_merkle helper itr r ≡ ok true
      → (matched : ℕ) × (hash_loop next serialize hasher fuel in_merkle matched helper itr
          ≡ ok true)
  unfolding after_verdict
  after_verdict-true fuel in_merkle helper itr (err e) h = cc
  after_verdict-true fuel in_merkle helper itr (ok mismatch) h = cc
  after_verdict-true fuel in_merkle helper itr (ok (go_on matched)) h = (matched, h)

  -- The results, fed to a helper as the simulation feeds them, end in the recorded summary.
  abbrev pub SameSummary : QueryReadsMerkleSummary → List VersionedKv → ResultsHelper → Type 0
  SameSummary in_merkle zs helper =
      let f = helper_done serialize hasher (add_results serialize hasher (reads_of zs) helper) in
      (f.error ≡ none) × (summary_equal in_merkle f.summary ≡ true)

  hash_loop-SameSummary :
      (zs : List VersionedKv) (fuel : ℕ) (in_merkle : QueryReadsMerkleSummary) (matched : ℕ)
      (helper : ResultsHelper) (itr : S)
      → Yields next zs itr
      → hash_loop next serialize hasher fuel in_merkle matched helper itr ≡ ok true
      → SameSummary in_merkle zs helper
  unfolding add_results
  hash_loop-SameSummary zs zero in_merkle matched helper itr y e = unfold hash_loop in cc
  hash_loop-SameSummary [] (suc fuel) in_merkle matched helper itr y e =
      done_result-true in_merkle (helper_done serialize hasher helper)
        (sym (hash_loop-end fuel in_merkle matched helper itr y) ∙ e)
  hash_loop-SameSummary (x ∷ xs) (suc fuel) in_merkle matched helper itr y e =
      let helper' : ResultsHelper =
        (add_result serialize hasher (new_kv_read x.key x.version) helper).1 in
      let (matched', e') =
        after_verdict-true fuel in_merkle helper' (next itr).1
          (verdict_of in_merkle matched helper x)
          (sym (hash_loop-step fuel in_merkle matched helper itr x y.0) ∙ e) in
      hash_loop-SameSummary xs fuel in_merkle matched' helper' (next itr).1 y.1 e'

  after_verdict-fuel :
      (fuel fuel' : ℕ) (in_merkle : QueryReadsMerkleSummary) (helper : ResultsHelper) (itr : S)
      (r : Result Verdict)
      → ((matched : ℕ)
          → hash_loop next serialize hasher fuel in_merkle matched helper itr
            ≡ hash_loop next serialize hasher fuel' in_merkle matched helper itr)
      → after_verdict fuel in_merkle helper itr r ≡ after_verdict fuel' in_merkle helper itr r
  unfolding after_verdict
  after_verdict-fuel fuel fuel' in_merkle helper itr (err e) h = refl
  after_verdict-fuel fuel fuel' in_merkle helper itr (ok mismatch) h = refl
  after_verdict-fuel fuel fuel' in_merkle helper itr (ok (go_on matched)) h = h matched

  hash_loop-fuel :
      (zs : List VersionedKv) (fuel fuel' : ℕ) (in_merkle : QueryReadsMerkleSummary) (matched : ℕ)
      (helper : ResultsHelper) (itr : S)
      → Yields next zs itr
      → length zs < fuel
      → length zs < fuel'
      → hash_loop next serialize hasher fuel in_merkle matched helper itr
        ≡ hash_loop next serialize hasher fuel' in_merkle matched helper itr
  hash_loop-fuel zs zero fuel' in_merkle matched helper itr y h k = absurd (omega arith)
  hash_loop-fuel zs (suc fuel) zero in_merkle matched helper itr y h k = absurd (omega arith)
  hash_loop-fuel [] (suc fuel) (suc fuel') in_merkle matched helper itr y h k =
      hash_loop-end fuel in_merkle matched helper itr y
      ∙ sym (hash_loop-end fuel' in_merkle matched helper itr y)
  hash_loop-fuel (x ∷ xs) (suc fuel) (suc fuel') in_merkle matched helper itr y h k =
      hash_loop-step fuel in_merkle matched helper itr x y.0
      ∙ after_verdict-fuel fuel fuel' in_merkle _ (next itr).1
          (verdict_of in_merkle matched helper x)
          (λ m.
            hash_loop-fuel xs fuel fuel' in_merkle m _ (next itr).1 y.1 (omega arith) (omega arith))
      ∙ sym (hash_loop-step fuel' in_merkle matched helper itr x y.0)

  -- Over an iterator that gives the items `zs`, and for a recorded degree of which a helper is
  -- made, a bound of more rounds than items never shows in what `validate` returns; and where it
  -- accepts, a fresh helper that is fed the keys and versions of `zs` ends without an error in a
  -- summary equal to the recorded one.
  pub hash_validate_sound :
      (zs : List VersionedKv) (in_merkle : QueryReadsMerkleSummary) (itr : S)
      (helper : ResultsHelper)
      → Yields next zs itr
      → new_results_helper true in_merkle.max_degree ≡ ok helper
      → ((fuel fuel' : ℕ)
          → length zs < fuel
          → length zs < fuel'
          → hash_validate next serialize hasher fuel in_merkle itr
            ≡ hash_validate next serialize hasher fuel' in_merkle itr)
        × ((fuel : ℕ)
            → hash_validate next serialize hasher fuel in_merkle itr ≡ ok true
            → SameSummary in_merkle zs helper)
  unfolding hash_validate
  hash_validate_sound zs in_merkle itr helper y e = (
    λ fuel fuel' h k.
        rw (e, hash_validate) (hash_loop-fuel zs fuel fuel' in_merkle 0 helper itr y h k),
    λ fuel t. hash_loop-SameSummary zs fuel in_merkle 0 helper itr y (rw (e, hash_validate) at t),
  )
