-- ===== src/Rwset/MerkleTree/Done.antt =====
-- `done` of the Merkle tree leaves nodes on one level only.
use mathlib.Core.Path.{subst}
use eloan_peer.Prelude.{
  ℕ, zero, suc, ◌+◌, ◌-◌, ◌^◌, ◌≤◌, ◌<◌, ◌≡◌, ◌≢◌, refl, ap, sym, Error, true, false, Option, none,
  List, [], ◌∷◌, ◌++◌, ok, arith, ltb, ◌==◌, length, length-append, Bool-cases, inl, inr,
}
use eloan_peer.Rwset.MerkleTree.{
  Hash, Hasher, MerkleTree, leaf_level, len32, set_level, lift, node_of, finish, done_from, done,
  compute_combined_hash,
}
use eloan_peer.Rwset.MerkleTree.Bounds.{IsBounded, Total, compute_combined_hash-total, len32_small}

-- The tree is complete: only its highest level has nodes, at most `max_degree`.
pub record IsComplete (m : MerkleTree) : Type 0 where
  pub only_highest : (l : ℕ) → l ≢ m.max_level → m.tree l ≡ []
  pub highest : length (m.tree m.max_level) ≤ m.max_degree

-- While `done` lifts nodes: nothing is left below `level`, which may hold one node too many.
record Lifts (level : ℕ) (m : MerkleTree) : Type 0 where
  degree : 2 ≤ m.max_degree
  degree_fits : m.max_degree + 1 < 2 ^ 32
  below : (l : ℕ) → l < level → m.tree l ≡ []
  others : (l : ℕ) → l ≢ level → length (m.tree l) ≤ m.max_degree
  here : length (m.tree level) ≤ m.max_degree + 1
  above : (l : ℕ) → m.max_level < l → m.tree l ≡ []

abbrev Completes : ℕ → Option Error × MerkleTree → Type 0
Completes d r = (r.0 ≡ none) × IsComplete r.1 × (r.1.max_degree ≡ d)

finish-long :
    (hasher : Hasher) (m : MerkleTree) (h : Hash)
    → ltb m.max_degree (len32 (m.tree m.max_level)) ≡ true
    → compute_combined_hash hasher (m.tree m.max_level) ≡ ok h
    → finish hasher m ≡ (
      none,
      set_level
          (m.max_level + 1)
          (h ∷ [])
          (record (set_level m.max_level [] m) { max_level = m.max_level + 1 }),
    )
unfolding finish
finish-long hasher m h e c = rw e (rw c refl)

finish-short :
    (hasher : Hasher) (m : MerkleTree)
    → ltb m.max_degree (len32 (m.tree m.max_level)) ≡ false
    → finish hasher m ≡ (none, m)
unfolding finish
finish-short hasher m e = rw e refl

finish-Completes :
    (hasher : Hasher) (m : MerkleTree)
    → Total hasher
    → Lifts m.max_level m
    → Completes m.max_degree (finish hasher m)
finish-Completes hasher m t c =
    let small : len32 (m.tree m.max_level) ≡ length (m.tree m.max_level) =
      len32_small (m.tree m.max_level) m.max_degree c.degree_fits c.here in
    elim (Bool-cases (ltb m.max_degree (len32 (m.tree m.max_level)))) [
      | inl long ↦
          let (h, e) = compute_combined_hash-total hasher t (m.tree m.max_level) in
          subst (Completes m.max_degree) (sym (finish-long hasher m h long e)) (
            unfold set_level in
            (
              refl,
              record {
                only_highest = λ l n. ground (arith, c.below l, c.above l);
                highest = ground (arith, c.degree);
              },
              refl,
            ))
      | inr short ↦ subst (Completes m.max_degree) (sym (finish-short hasher m short)) (
        refl,
        record {
          only_highest = λ l n. ground (arith, c.below l, c.above l);
          highest = ground arith;
        },
        refl,
      )
    ]

node_of-total :
    (hasher : Hasher)
    → Total hasher
    → (h : Hash) (hs : List Hash) → (g : Hash) × (node_of hasher (h ∷ hs) ≡ ok g)
unfolding node_of
node_of-total hasher t h [] = (h, refl)
node_of-total hasher t h (h' ∷ hs) = compute_combined_hash-total hasher t (h ∷ h' ∷ hs)

done_from-skip :
    (hasher : Hasher) (rounds level : ℕ) (m : MerkleTree)
    → m.tree level ≡ []
    → done_from hasher (suc rounds) level m ≡ done_from hasher rounds (level + 1) m
unfolding done_from
done_from-skip hasher rounds level m e = rw (e, done_from)

done_from-lift :
    (hasher : Hasher) (rounds level : ℕ) (m : MerkleTree) (h g : Hash) (hs : List Hash)
    → m.tree level ≡ h ∷ hs
    → node_of hasher (h ∷ hs) ≡ ok g
    → done_from hasher (suc rounds) level m ≡ done_from hasher rounds (level + 1) (lift level g m)
unfolding done_from
done_from-lift hasher rounds level m h g hs e n = rw (e, done_from) (rw (n, done_from))

lift-Lifts :
    (level : ℕ) (g : Hash) (m : MerkleTree)
    → level < m.max_level
    → Lifts level m
    → Lifts (level + 1) (lift level g m)
unfolding lift
lift-Lifts level g m lt c =
    let one : length (m.tree (level + 1) ++ g ∷ []) ≡ length (m.tree (level + 1)) + 1 =
      length-append (m.tree (level + 1)) (g ∷ []) in
    record {
      degree = c.degree;
      degree_fits = c.degree_fits;
      below = λ l a. ground (arith, c.below l);
      others = λ l n. ground (arith, c.others l, c.degree);
      here = ground (arith, c.others (level + 1));
      above = λ l a. ground (arith, c.above l);
    }

skip-Lifts : (level : ℕ) (m : MerkleTree) → m.tree level ≡ [] → Lifts level m → Lifts (level + 1) m
skip-Lifts level m e c = record {
  degree = c.degree;
  degree_fits = c.degree_fits;
  below = λ l a. elim (Bool-cases (l == level)) [
    | inl same ↦ ground arith
    | inr other ↦ ground (arith, c.below l)
  ];
  others = λ l n. elim (Bool-cases (l == level)) [
    | inl same ↦ ground (arith, ap (length {A = Hash}) e)
    | inr other ↦ ground (arith, c.others l)
  ];
  here = ground (arith, c.others (level + 1));
  above = c.above;
}

done_from-Completes :
    (hasher : Hasher)
    → Total hasher
    → (rounds level : ℕ) (m : MerkleTree) → rounds + level ≡ m.max_level
    → Lifts level m
    → (nodes : List Hash) → m.tree level ≡ nodes
    → Completes m.max_degree (done_from hasher rounds level m)
unfolding lift
done_from-Completes hasher t zero level m r c nodes e =
    unfold done_from in finish-Completes hasher m t (subst (λ l. Lifts l m) (omega arith) c)
done_from-Completes hasher t (suc rounds) level m r c [] e =
    subst (Completes m.max_degree) (sym (done_from-skip hasher rounds level m e)) (
      done_from-Completes hasher t rounds (level + 1) m (omega arith) (skip-Lifts level m e c) _
        refl)
done_from-Completes hasher t (suc rounds) level m r c (h ∷ hs) e =
    let (g, n) = node_of-total hasher t h hs in
    subst (Completes m.max_degree) (sym (done_from-lift hasher rounds level m h g hs e n)) (
      done_from-Completes hasher t rounds (level + 1) (lift level g m) (unfold lift in omega arith)
        (lift-Lifts level g m (omega arith) c) _ refl)

-- With a hash that does not fail, `done` of a bounded tree ends without an error, with nodes on the
-- highest level only and no more of them than the degree, which it keeps.
pub done-IsComplete :
    (hasher : Hasher) (m : MerkleTree)
    → Total hasher
    → IsBounded m
    → ((done hasher m).0 ≡ none)
      × IsComplete (done hasher m).1
      × ((done hasher m).1.max_degree ≡ m.max_degree)
unfolding done
done-IsComplete hasher m t b =
    done_from-Completes hasher t (m.max_level - leaf_level) leaf_level m (omega (arith, b.leaf))
      (record {
        degree = b.degree;
        degree_fits = b.degree_fits;
        below = λ l a. ground (arith, b.zero_level);
        others = λ l n. b.levels l;
        here = omega (arith, b.levels leaf_level);
        above = b.above;
      })
      _ refl
