-- ===== src/Rwset/ResultsHelper/Outcome.antt =====
-- What `Done` returns: the raw results, or a summary of their hashes.
use mathlib.Core.Path.{subst}
use eloan_peer.Prelude.{
  ℕ, ◌+◌, ◌^◌, ◌≤◌, ◌<◌, ◌≡◌, refl, sym, ap, ◌∙◌, true, false, none, some, List, [], ◌∷◌, ◌++◌,
  Result, ok, ltb, length, length-append, append_assoc, append-nil, arith, Bool-cases, Result-cases,
  inl, inr,
}
use eloan_peer.Prelude.GoString.{GoString}
use eloan_peer.Rwset.{KvRead, QueryReadsMerkleSummary}
use eloan_peer.Rwset.MerkleTree.{
  Hasher, MerkleTree, new_merkle_tree, update, done, get_summery, is_empty_tree, len32,
}
use eloan_peer.Rwset.MerkleTree.Bounds.{
  Total, IsBounded, new_merkle_tree-IsBounded, new_merkle_tree_lem, update-IsBounded,
}
use eloan_peer.Rwset.MerkleTree.Keeps.{max_degree-update}
use eloan_peer.Rwset.MerkleTree.Done.{done-IsComplete}
use eloan_peer.Rwset.ResultsHelper.{
  ResultsHelper, Final, new_results_helper, process_pending_results, helper_done, add_results,
  summarize,
}
use eloan_peer.Rwset.ResultsHelper.Degree.{
  Marshals, hashing, HasHashed, processed, add_result-few, add_result-many, add_results-HasHashed,
  process_pending_results-hashing,
}

module _ (serialize : List KvRead → Result GoString) (hasher : Hasher)
    (marshals : Marshals serialize) (total : Total hasher) where
  add_results-few :
      (rs ps : List KvRead) (m : MerkleTree) (d : ℕ)
      → d + 1 < 2 ^ 32
      → length ps + length rs ≤ d
      → add_results serialize hasher rs (hashing serialize hasher marshals total ps m d)
        ≡ hashing serialize hasher marshals total (ps ++ rs) m d
  unfolding add_results
  add_results-few [] ps m d f h = rw append-nil refl
  add_results-few (r ∷ rs) ps m d f h =
      ap (λ x. add_results serialize hasher rs x.1)
        (add_result-few serialize hasher marshals total r ps m d
          (ground (arith, length-append ps (r ∷ []))))
      ∙ add_results-few rs (ps ++ r ∷ []) m d f (omega (arith, length-append ps (r ∷ [])))
      ∙ ap (λ l. hashing serialize hasher marshals total l m d) (append_assoc ps (r ∷ []) rs)

  add_results-many :
      (rs ps : List KvRead) (m : MerkleTree) (d : ℕ)
      → d + 1 < 2 ^ 32
      → IsBounded m
      → m.max_degree ≡ d
      → length ps ≤ d
      → d < length ps + length rs
      → HasHashed serialize hasher marshals total d
          (add_results serialize hasher rs (hashing serialize hasher marshals total ps m d))
  unfolding add_results
  add_results-many [] ps m d f b s lo hi = absurd (omega arith)
  add_results-many (r ∷ rs) ps m d f b s lo hi = elim (Bool-cases (ltb d (len32 (ps ++ r ∷ [])))) [
    | inl e ↦
        subst
          (λ x. HasHashed serialize hasher marshals total d (add_results serialize hasher rs x.1))
          (sym (add_result-many serialize hasher marshals total r ps m d e))
          (add_results-HasHashed serialize hasher marshals total d rs _
            (processed serialize hasher marshals total (ps ++ r ∷ []) m d b s))
    | inr e ↦
        subst
          (λ x. HasHashed serialize hasher marshals total d (add_results serialize hasher rs x.1))
          (sym (add_result-few serialize hasher marshals total r ps m d e))
          (add_results-many rs (ps ++ r ∷ []) m d f b s (ground (arith, length-append ps (r ∷ [])))
            (omega (arith, length-append ps (r ∷ []))))
  ]

  -- The result of `Done` is a summary of at most `d` hashes.
  abbrev pub IsSummary : ℕ → Final serialize hasher → Type 0
  IsSummary d f =
      (s : QueryReadsMerkleSummary) × (f ≡ record { results = []; summary = some s; error = none })
      × (length s.max_level_hashes ≤ d)
      × (s.max_degree ≡ d)

  summarize-IsSummary :
      (m : MerkleTree) (d : ℕ)
      → IsBounded m
      → m.max_degree ≡ d
      → IsSummary d
          (summarize serialize hasher (none, hashing serialize hasher marshals total [] m d))
  unfolding summarize get_summery
  summarize-IsSummary m d b s =
      let (e, c, k) = done-IsComplete hasher m total b in
      (get_summery (done hasher m).1, refl, omega (arith, c.highest), k ∙ s)

  helper_done-raw :
      (ps : List KvRead) (m : MerkleTree) (d : ℕ)
      → is_empty_tree m ≡ true
      → helper_done serialize hasher (hashing serialize hasher marshals total ps m d)
        ≡ record { results = ps; summary = none; error = none }
  unfolding helper_done
  helper_done-raw ps m d e = rw e refl

  helper_done-nil :
      (m : MerkleTree) (d : ℕ)
      → is_empty_tree m ≡ false
      → helper_done serialize hasher (hashing serialize hasher marshals total [] m d)
        ≡ summarize serialize hasher (none, hashing serialize hasher marshals total [] m d)
  unfolding helper_done
  helper_done-nil m d e = rw e refl

  helper_done-cons :
      (p : KvRead) (ps : List KvRead) (m : MerkleTree) (d : ℕ)
      → is_empty_tree m ≡ false
      → helper_done serialize hasher (hashing serialize hasher marshals total (p ∷ ps) m d)
        ≡ summarize serialize hasher (
            process_pending_results serialize hasher
              (hashing serialize hasher marshals total (p ∷ ps) m d))
  unfolding helper_done
  helper_done-cons p ps m d e = rw e refl

  helper_done-IsSummary :
      (d : ℕ) (ps : List KvRead) (m : MerkleTree)
      → IsBounded m
      → m.max_degree ≡ d
      → is_empty_tree m ≡ false
      → IsSummary d (helper_done serialize hasher (hashing serialize hasher marshals total ps m d))
  helper_done-IsSummary d [] m b k n =
      subst (IsSummary d) (sym (helper_done-nil m d n)) (summarize-IsSummary m d b k)
  helper_done-IsSummary d (p ∷ ps) m b k n =
      let (h, e) = process_pending_results-hashing serialize hasher marshals total (p ∷ ps) m d in
      subst (IsSummary d) (sym (helper_done-cons p ps m d n ∙ ap (summarize serialize hasher) e)) (
        summarize-IsSummary (update hasher h m).1 d (update-IsBounded hasher h m total b).1
          (max_degree-update hasher h m ∙ k))

  new_results_helper-hashing :
      (d : ℕ) (helper : ResultsHelper)
      → new_results_helper true d ≡ ok helper
      → (m : MerkleTree) × (new_merkle_tree d ≡ ok m)
        × (helper ≡ hashing serialize hasher marshals total [] m d)
  unfolding new_results_helper
  new_results_helper-hashing d helper e = elim (Result-cases (new_merkle_tree d)) [
    | inl (m, p) ↦ (m, p, cc)
    | inr (x, p) ↦ cc
  ]

  -- After `n` results given to a hashing helper of degree `d`, below 2^32 - 1, `Done` returns the
  -- results as they are and no summary where n ≤ d; where d < n it returns no results and a summary
  -- of at most `d` hashes, of degree `d`. There is no error, if the hash and the marshalling do not
  -- fail.
  pub helper_done_lem :
      (d : ℕ) (helper : ResultsHelper) (rs : List KvRead)
      → d + 1 < 2 ^ 32
      → new_results_helper true d ≡ ok helper
      → (length rs ≤ d
          → helper_done serialize hasher (add_results serialize hasher rs helper)
            ≡ record { results = rs; summary = none; error = none })
        × (d < length rs
            → IsSummary d (helper_done serialize hasher (add_results serialize hasher rs helper)))
  helper_done_lem d helper rs f e =
      let (m, new, shape) = new_results_helper-hashing d helper e in
      let b : IsBounded m = new_merkle_tree-IsBounded d m f new in
      let (none_yet, k) = new_merkle_tree_lem d m new in
      (
        λ few.
            ap (λ h. helper_done serialize hasher (add_results serialize hasher rs h)) shape
            ∙ ap (helper_done serialize hasher) (add_results-few rs [] m d f (omega arith))
            ∙ helper_done-raw rs m d none_yet,
        λ many.
            let s : HasHashed serialize hasher marshals total d
                (add_results serialize hasher rs (hashing serialize hasher marshals total [] m d)) =
              add_results-many rs [] m d f b k (omega arith) (omega arith) in
            subst
              (λ h. IsSummary d (helper_done serialize hasher (add_results serialize hasher rs h)))
              (sym shape)
              (subst (λ h. IsSummary d (helper_done serialize hasher h)) (sym s.shape)
                (helper_done-IsSummary d s.pending s.tree s.bounded s.same_degree s.not_empty)),
      )
