-- ===== src/Rwset/MerkleTree/Bounds.antt =====
-- `update` of the Merkle tree ends, and keeps every level within the degree.
use mathlib.Core.Path.{subst}
use eloan_peer.Prelude.{
  ℕ, zero, suc, ◌+◌, ◌^◌, ◌≤◌, ◌<◌, ◌≡◌, ◌≢◌, refl, ap, sym, Error, true, false, Option, none, some,
  List, [], ◌∷◌, ◌++◌, ok, err, arith, leb, ltb, ◌==◌, if◌then◌else◌, length, length-append,
  Bool-cases, inl, inr,
}
use eloan_peer.Prelude.GoString.{GoString}
use eloan_peer.Rwset.MerkleTree.{
  Hash, Hasher, MerkleTree, leaf_level, len32, set_level, promote, update_from, update,
  compute_combined_hash, new_merkle_tree, is_empty_tree,
}

-- The hash never fails, as SHA-256 does not.
abbrev pub Total : Hasher → Type 0
Total hasher = (b : GoString) → (h : Hash) × (hasher b ≡ ok h)

-- Every level holds at most `max_degree` nodes, and none lie above the highest level.
pub record IsBounded (m : MerkleTree) : Type 0 where
  pub degree : 2 ≤ m.max_degree
  pub degree_fits : m.max_degree + 1 < 2 ^ 32
  pub leaf : 1 ≤ m.max_level
  pub zero_level : m.tree 0 ≡ []
  pub levels : (l : ℕ) → length (m.tree l) ≤ m.max_degree
  pub above : (l : ℕ) → m.max_level < l → m.tree l ≡ []

pub new_merkle_tree-IsBounded :
    (d : ℕ) (m : MerkleTree) → d + 1 < 2 ^ 32 → new_merkle_tree d ≡ ok m → IsBounded m
unfolding new_merkle_tree
new_merkle_tree-IsBounded d m f e = elim (Bool-cases (ltb d 2)) [
  | inl low ↦ absurd (ground arith)
  | inr high ↦
      let q : record { tree = λ l. []; max_level = 1; max_degree = d } ≡ m = ground arith in
      subst IsBounded q (record {
        degree = ground arith;
        degree_fits = f;
        leaf = omega arith;
        zero_level = refl;
        levels = λ l. omega arith;
        above = λ l a. refl;
      })
]

pub new_merkle_tree_lem :
    (d : ℕ) (m : MerkleTree)
    → new_merkle_tree d ≡ ok m
    → (is_empty_tree m ≡ true) × (m.max_degree ≡ d)
unfolding new_merkle_tree is_empty_tree
new_merkle_tree_lem d m e = elim (Bool-cases (ltb d 2)) [
  | inl low ↦ absurd (ground arith)
  | inr high ↦
      let q : record { tree = λ l. []; max_level = 1; max_degree = d } ≡ m = ground arith in
      subst (λ t. (is_empty_tree t ≡ true) × (t.max_degree ≡ d)) q (refl, refl)
]

-- While `update` climbs: the tree was bounded with highest level `top`, and the nodes of `level`
-- may be one too many.
record Climbs (top level : ℕ) (m : MerkleTree) : Type 0 where
  degree : 2 ≤ m.max_degree
  degree_fits : m.max_degree + 1 < 2 ^ 32
  leaf : 1 ≤ top
  positive : 1 ≤ level
  zero_level : m.tree 0 ≡ []
  others : (l : ℕ) → l ≢ level → length (m.tree l) ≤ m.max_degree
  here : length (m.tree level) ≤ m.max_degree + 1
  above : (l : ℕ) → top < l → l ≢ level → m.tree l ≡ []
  above_here : top < level → length (m.tree level) ≤ 1
  reached : level ≤ top + 1
  highest_old : level ≤ top → m.max_level ≡ top
  highest_new : top < level → m.max_level ≡ level

pub compute_combined_hash-total :
    (hasher : Hasher)
    → Total hasher
    → (hs : List Hash) → (h : Hash) × (compute_combined_hash hasher hs ≡ ok h)
unfolding compute_combined_hash
compute_combined_hash-total hasher t hs = t _

promote-tree :
    (level : ℕ) (h : Hash) (m : MerkleTree) (l : ℕ)
    → (promote level h m).tree l ≡ (
        if l == level + 1
        then m.tree (level + 1) ++ h ∷ []
        else if l == level
        then []
        else m.tree l)
unfolding promote
promote-tree level h m l = ground arith

Climbs-IsBounded :
    (top level : ℕ) (m : MerkleTree)
    → Climbs top level m
    → length (m.tree level) ≤ m.max_degree
    → IsBounded m
Climbs-IsBounded top level m c h = record {
  degree = c.degree;
  degree_fits = c.degree_fits;
  leaf = ground arith;
  zero_level = c.zero_level;
  levels = λ l. ground (arith, c.others l);
  above = λ l a. ground (arith, c.above l);
}

pub max_degree-promote :
    (level : ℕ) (h : Hash) (m : MerkleTree) → (promote level h m).max_degree ≡ m.max_degree
unfolding promote
max_degree-promote level h m = ground arith

pub max_level-promote :
    (level : ℕ) (h : Hash) (m : MerkleTree)
    → (promote level h m).max_level
      ≡ (if ltb m.max_level (level + 1) then level + 1 else m.max_level)
unfolding promote
max_level-promote level h m = ground arith

promote-Climbs :
    (top level : ℕ) (h : Hash) (m : MerkleTree)
    → Climbs top level m
    → m.max_degree < length (m.tree level)
    → Climbs top (level + 1) (promote level h m)
promote-Climbs top level h m c big =
    let low : level ≤ top = ground (arith, c.above_here) in
    let same : (promote level h m).max_degree ≡ m.max_degree = max_degree-promote level h m in
    let one : length (m.tree (level + 1) ++ h ∷ []) ≡ length (m.tree (level + 1)) + 1 =
      length-append (m.tree (level + 1)) (h ∷ []) in
    record {
      degree = omega (arith, c.degree);
      degree_fits = omega (arith, c.degree_fits);
      leaf = c.leaf;
      positive = omega arith;
      zero_level = rw (promote-tree level h m 0) (ground (arith, c.zero_level, c.positive));
      others = λ l n. rw (promote-tree level h m l) (ground (arith, c.others l, c.degree));
      here = rw (promote-tree level h m (level + 1)) (ground (arith, c.others (level + 1)));
      above = λ l a n. rw (promote-tree level h m l) (ground (arith, c.above l));
      above_here = λ a.
          rw (promote-tree level h m (level + 1))
            (ground (arith, ap (length {A = Hash}) (c.above (level + 1) a (omega arith))));
      reached = omega arith;
      highest_old = λ a. rw (max_level-promote level h m) (ground (arith, c.highest_old));
      highest_new = λ a. rw (max_level-promote level h m) (ground (arith, c.highest_old));
    }

pub len32_small :
    (hs : List Hash) (d : ℕ) → d + 1 < 2 ^ 32 → length hs ≤ d + 1 → len32 hs ≡ length hs
len32_small hs d f h = omega arith

pub update_from-stop :
    (hasher : Hasher) (fuel level : ℕ) (m : MerkleTree)
    → leb (len32 (m.tree level)) m.max_degree ≡ true
    → update_from hasher (suc fuel) level m ≡ (none, m)
unfolding update_from
update_from-stop hasher fuel level m e = rw (e, update_from)

pub update_from-climb :
    (hasher : Hasher) (fuel level : ℕ) (m : MerkleTree) (h : Hash)
    → leb (len32 (m.tree level)) m.max_degree ≡ false
    → compute_combined_hash hasher (m.tree level) ≡ ok h
    → update_from hasher (suc fuel) level m
      ≡ update_from hasher fuel (level + 1) (promote level h m)
unfolding update_from
update_from-climb hasher fuel level m h e c = rw (e, update_from) (rw (c, update_from))

pub update_from-fail :
    (hasher : Hasher) (fuel level : ℕ) (m : MerkleTree) (x : Error)
    → leb (len32 (m.tree level)) m.max_degree ≡ false
    → compute_combined_hash hasher (m.tree level) ≡ err x
    → update_from hasher (suc fuel) level m ≡ (some x, m)
unfolding update_from
update_from-fail hasher fuel level m x e c = rw (e, update_from) (rw (c, update_from))

-- The loop of `update` ended without an error, in a bounded tree.
abbrev pub Ended : Option Error × MerkleTree → Type 0
Ended r = (r.0 ≡ none) × IsBounded r.1

-- From a climbing state with enough rounds left, `update` ends without an error.
update_from-Ended :
    (hasher : Hasher)
    → Total hasher
    → (fuel top level : ℕ) (m : MerkleTree) → Climbs top level m
    → top + 2 ≤ fuel + level
    → Ended (update_from hasher fuel level m)
update_from-Ended hasher t zero top level m c h = absurd (omega (arith, c.reached))
update_from-Ended hasher t (suc fuel) top level m c h =
    let small : len32 (m.tree level) ≡ length (m.tree level) =
      len32_small (m.tree level) m.max_degree c.degree_fits c.here in
    elim (Bool-cases (leb (len32 (m.tree level)) m.max_degree)) [
      | inl fits ↦
          subst Ended (sym (update_from-stop hasher fuel level m fits))
            (refl, Climbs-IsBounded top level m c (ground arith))
      | inr big ↦
          let (g, e) = compute_combined_hash-total hasher t (m.tree level) in
          subst Ended (sym (update_from-climb hasher fuel level m g big e)) (
            update_from-Ended hasher t fuel top (level + 1) (promote level g m)
              (promote-Climbs top level g m c (ground arith)) (omega arith))
    ]

leaf-Climbs :
    (h : Hash) (m : MerkleTree)
    → IsBounded m
    → Climbs m.max_level leaf_level (set_level leaf_level (m.tree leaf_level ++ h ∷ []) m)
unfolding set_level
leaf-Climbs h m b =
    let one : length (m.tree leaf_level ++ h ∷ []) ≡ length (m.tree leaf_level) + 1 =
      length-append (m.tree leaf_level) (h ∷ []) in
    record {
      degree = b.degree;
      degree_fits = b.degree_fits;
      leaf = b.leaf;
      positive = omega arith;
      zero_level = b.zero_level;
      others = λ l n. ground (arith, b.levels l);
      here = ground (arith, b.levels leaf_level);
      above = λ l a n. ground (arith, b.above l);
      above_here = λ a. absurd (omega (arith, b.leaf));
      reached = omega arith;
      highest_old = λ a. refl;
      highest_new = λ a. absurd (omega (arith, b.leaf));
    }

-- With a hash that does not fail, `update` of a bounded tree ends without an error, within its
-- fuel, and leaves a bounded tree.
pub update-IsBounded :
    (hasher : Hasher) (h : Hash) (m : MerkleTree)
    → Total hasher
    → IsBounded m
    → ((update hasher h m).0 ≡ none) × IsBounded (update hasher h m).1
unfolding update
update-IsBounded hasher h m t b =
    update_from-Ended hasher t (m.max_level + 2) m.max_level leaf_level _ (leaf-Climbs h m b)
      (omega arith)
