-- ===== src/Rwset/ResultsHelper/Degree.antt =====
-- How many results the helper keeps, and when it hashes them.
use mathlib.Core.Path.{subst}
use eloan_peer.Prelude.{
  ℕ, ◌≤◌, ◌≡◌, refl, sym, ap, ◌∙◌, true, false, none, some, List, [], ◌∷◌, ◌++◌, Result, ok, ltb,
  length, length-append, arith, Bool-cases, inl, inr,
}
use eloan_peer.Prelude.GoString.{GoString}
use eloan_peer.Rwset.{KvRead}
use eloan_peer.Rwset.MerkleTree.{Hash, Hasher, MerkleTree, update, is_empty_tree, len32}
use eloan_peer.Rwset.MerkleTree.Bounds.{Total, IsBounded, update-IsBounded}
use eloan_peer.Rwset.MerkleTree.Keeps.{max_degree-update, update-not_empty}
use eloan_peer.Rwset.ResultsHelper.{
  ResultsHelper, process_pending_results, add_result, add_results, hash_pending,
}

-- Marshalling the reads never fails.
abbrev pub Marshals : (List KvRead → Result GoString) → Type 0
Marshals serialize = (rs : List KvRead) → (b : GoString) × (serialize rs ≡ ok b)

module _ (serialize : List KvRead → Result GoString) (hasher : Hasher)
    (marshals : Marshals serialize) (total : Total hasher) where
  -- A hashing helper over the tree `m`.
  abbrev pub hashing : List KvRead → MerkleTree → ℕ → ResultsHelper
  hashing rs m d = record {
    pending_results = rs;
    mt = some m;
    max_degree = d;
    hashing_enabled = true;
  }

  pub process_pending_results-hashing :
      (rs : List KvRead) (m : MerkleTree) (d : ℕ)
      → (h : Hash) × (process_pending_results serialize hasher (hashing rs m d)
          ≡ (none, hashing [] (update hasher h m).1 d))
  unfolding process_pending_results
  process_pending_results-hashing rs m d =
      let (b, e) = marshals rs in let (h, f) = total b in (h, rw e (rw (f, hash_pending) refl))

  pub add_result-few :
      (r : KvRead) (rs : List KvRead) (m : MerkleTree) (d : ℕ)
      → ltb d (len32 (rs ++ r ∷ [])) ≡ false
      → add_result serialize hasher r (hashing rs m d) ≡ (none, hashing (rs ++ r ∷ []) m d)
  unfolding add_result
  add_result-few r rs m d e = rw e refl

  pub add_result-many :
      (r : KvRead) (rs : List KvRead) (m : MerkleTree) (d : ℕ)
      → ltb d (len32 (rs ++ r ∷ [])) ≡ true
      → add_result serialize hasher r (hashing rs m d)
        ≡ process_pending_results serialize hasher (hashing (rs ++ r ∷ []) m d)
  unfolding add_result
  add_result-many r rs m d e = rw e refl

  -- A helper that has hashed: few results are pending, and the tree is bounded and has a node.
  pub record HasHashed (d : ℕ) (helper : ResultsHelper) : Type 0 where
    pub pending : List KvRead
    pub tree : MerkleTree
    pub shape : helper ≡ hashing pending tree d
    pub few : length pending ≤ d
    pub bounded : IsBounded tree
    pub same_degree : tree.max_degree ≡ d
    pub not_empty : is_empty_tree tree ≡ false

  pub processed :
      (rs : List KvRead) (m : MerkleTree) (d : ℕ)
      → IsBounded m
      → m.max_degree ≡ d
      → HasHashed d (process_pending_results serialize hasher (hashing rs m d)).1
  processed rs m d b s =
      let (h, e) = process_pending_results-hashing rs m d in
      record {
        pending = [];
        tree = (update hasher h m).1;
        shape = ap (λ r. r.1) e;
        few = omega arith;
        bounded = (update-IsBounded hasher h m total b).1;
        same_degree = max_degree-update hasher h m ∙ s;
        not_empty = update-not_empty hasher h m;
      }

  add_result-HasHashed :
      (d : ℕ) (helper : ResultsHelper) (r : KvRead)
      → HasHashed d helper
      → HasHashed d (add_result serialize hasher r helper).1
  add_result-HasHashed d helper r s =
      let back : add_result serialize hasher r helper
          ≡ add_result serialize hasher r (hashing s.pending s.tree d) =
        ap (add_result serialize hasher r) s.shape in
      subst (λ x. HasHashed d x.1) (sym back)
        (elim (Bool-cases (ltb d (len32 (s.pending ++ r ∷ [])))) [
          | inl e ↦
              subst (λ x. HasHashed d x.1) (sym (add_result-many r s.pending s.tree d e))
                (processed (s.pending ++ r ∷ []) s.tree d s.bounded s.same_degree)
          | inr e ↦
              subst (λ x. HasHashed d x.1) (sym (add_result-few r s.pending s.tree d e))
                (record {
                  pending = s.pending ++ r ∷ [];
                  tree = s.tree;
                  shape = refl;
                  few = ground (
                    arith,
                    length-append s.pending (r ∷ []),
                    s.few,
                    s.bounded.degree_fits,
                    s.same_degree,
                  );
                  bounded = s.bounded;
                  same_degree = s.same_degree;
                  not_empty = s.not_empty;
                })
        ])

  pub add_results-HasHashed :
      (d : ℕ) (rs : List KvRead) (helper : ResultsHelper)
      → HasHashed d helper
      → HasHashed d (add_results serialize hasher rs helper)
  unfolding add_results
  add_results-HasHashed d [] helper s = s
  add_results-HasHashed d (r ∷ rs) helper s =
      add_results-HasHashed d rs _ (add_result-HasHashed d helper r s)
