-- ===== src/Rwset/MerkleTree/Keeps.antt =====
-- What `update` of the Merkle tree keeps: its degree, and that the tree has a node.
use mathlib.Core.Path.{subst}
use eloan_peer.Prelude.{
  ℕ, zero, suc, ◌+◌, ◌≤◌, ◌<◌, ◌≡◌, ◌∙◌, refl, ap, sym, false, [], ◌∷◌, ◌++◌, arith, leb, ◌==◌,
  length, length-append, Bool-cases, inl, inr, ==_iff, Result-cases,
}
use eloan_peer.Rwset.MerkleTree.{
  Hash, Hasher, MerkleTree, leaf_level, len32, set_level, promote, update_from, update,
  compute_combined_hash, is_empty_tree,
}
use eloan_peer.Rwset.MerkleTree.Bounds.{
  update_from-stop, update_from-climb, update_from-fail, max_level-promote, max_degree-promote,
}

-- A tree whose highest level is the leaves has a leaf.
abbrev HasNode : MerkleTree → Type 0
HasNode m = m.max_level ≡ 1 → 0 < length (m.tree 1)

promote-HasNode : (level : ℕ) (h : Hash) (m : MerkleTree) → 1 ≤ level → HasNode (promote level h m)
promote-HasNode level h m p e = absurd (let q : _ = max_level-promote level h m in ground arith)

update_from-HasNode :
    (hasher : Hasher) (fuel level : ℕ) (m : MerkleTree)
    → 1 ≤ level
    → HasNode m
    → HasNode (update_from hasher fuel level m).1
update_from-HasNode hasher zero level m p n = unfold update_from in n
update_from-HasNode hasher (suc fuel) level m p n =
    elim (Bool-cases (leb (len32 (m.tree level)) m.max_degree)) [
      | inl fits ↦ subst (λ r. HasNode r.1) (sym (update_from-stop hasher fuel level m fits)) n
      | inr big ↦ elim (Result-cases (compute_combined_hash hasher (m.tree level))) [
        | inl (g, e) ↦
            subst (λ r. HasNode r.1) (sym (update_from-climb hasher fuel level m g big e))
              (update_from-HasNode hasher fuel (level + 1) (promote level g m) (omega arith)
                (promote-HasNode level g m p))
        | inr (x, e) ↦
            subst (λ r. HasNode r.1) (sym (update_from-fail hasher fuel level m x big e)) n
      ]
    ]

pub update-not_empty :
    (hasher : Hasher) (h : Hash) (m : MerkleTree) → is_empty_tree (update hasher h m).1 ≡ false
unfolding update is_empty_tree
update-not_empty hasher h m =
    let start : MerkleTree = set_level leaf_level (m.tree leaf_level ++ h ∷ []) m in
    let node : HasNode (update_from hasher (m.max_level + 2) leaf_level start).1 =
      update_from-HasNode hasher (m.max_level + 2) leaf_level start (omega arith)
        (unfold set_level in λ e. omega (arith, length-append (m.tree leaf_level) (h ∷ []))) in
    elim (Bool-cases ((update_from hasher (m.max_level + 2) leaf_level start).1.max_level == 1)) [
      | inl e ↦ ground (arith, node ((==_iff _ 1).0 e))
      | inr e ↦ rw e
    ]

max_degree-update_from :
    (hasher : Hasher) (fuel level : ℕ) (m : MerkleTree)
    → (update_from hasher fuel level m).1.max_degree ≡ m.max_degree
max_degree-update_from hasher zero level m = unfold update_from in refl
max_degree-update_from hasher (suc fuel) level m =
    elim (Bool-cases (leb (len32 (m.tree level)) m.max_degree)) [
      | inl fits ↦ ap (λ r. r.1.max_degree) (update_from-stop hasher fuel level m fits)
      | inr big ↦ elim (Result-cases (compute_combined_hash hasher (m.tree level))) [
        | inl (g, e) ↦
            ap (λ r. r.1.max_degree) (update_from-climb hasher fuel level m g big e)
            ∙ max_degree-update_from hasher fuel (level + 1) (promote level g m)
            ∙ max_degree-promote level g m
        | inr (x, e) ↦ ap (λ r. r.1.max_degree) (update_from-fail hasher fuel level m x big e)
      ]
    ]

pub max_degree-update :
    (hasher : Hasher) (h : Hash) (m : MerkleTree) → (update hasher h m).1.max_degree ≡ m.max_degree
unfolding update set_level
max_degree-update hasher h m = max_degree-update_from hasher (m.max_level + 2) leaf_level _
