-- ===== src/Rwset/MerkleTree.antt =====
-- The Merkle tree of query_results_helper.go.
pub mod Bounds
pub mod Done
pub mod Keeps
use eloan_peer.Prelude.{
  ℕ, zero, suc, ◌+◌, ◌-◌, ◌%◌, ◌^◌, Bool, true, false, not, ◌&&◌, Option, none, some, List, [], ◌∷◌,
  ◌++◌, Error, Result, ok, err, panic, ltb, leb, ◌==◌, if◌then◌else◌, length, codes,
}
use eloan_peer.Prelude.GoString.{GoString}
use eloan_peer.Rwset.{QueryReadsMerkleSummary}

abbrev pub Hash : Type 0
Hash = GoString

-- The hash of the default crypto provider, a library's.
abbrev pub Hasher : Type 0
Hasher = GoString → Result Hash

-- A level that the map lacks reads as the empty slice.
pub record MerkleTree : Type 0 where
  pub tree : ℕ → List Hash
  pub max_level : ℕ
  pub max_degree : ℕ

abbrev pub leaf_level : ℕ
leaf_level = 1

abbrev pub update_level : (ℕ → List Hash) → ℕ → List Hash → ℕ → List Hash
update_level tree level hashes l = if l == level then hashes else tree l

unfoldable pub set_level : ℕ → List Hash → MerkleTree → MerkleTree
set_level level hashes m = record m { tree = update_level m.tree level hashes }

-- `uint32(len(hashes))`
abbrev pub len32 {ℓ} : {A : Type ℓ} → List A → ℕ
len32 l = length l % 2 ^ 32

max_degree_error : Error
max_degree_error = Error.failed (codes "maxDegree should not be less than 2 in the merkle tree")

unfoldable pub new_merkle_tree : ℕ → Result MerkleTree
unfolding max_degree_error
new_merkle_tree max_degree =
    if ltb max_degree 2
    then err max_degree_error
    else ok (record { tree = λ l. []; max_level = 1; max_degree = max_degree })

unfoldable pub concat : List Hash → GoString
concat [] = []
concat (h ∷ hs) = h ++ concat hs

unfoldable pub compute_combined_hash : Hasher → List Hash → Result Hash
unfolding concat
compute_combined_hash hasher hashes = hasher (concat hashes)

raise_level : ℕ → MerkleTree → MerkleTree
raise_level level m = if ltb m.max_level level then record m { max_level = level } else m

-- The nodes of `level` are replaced by one node, their combined hash, on the next level.
unfoldable pub promote : ℕ → Hash → MerkleTree → MerkleTree
unfolding set_level raise_level
promote level h m =
    let m1 = set_level level [] m in
    raise_level (level + 1) (set_level (level + 1) (m1.tree (level + 1) ++ h ∷ []) m1)

-- The loop of `update`; it returns the error of the hash, if any, and the tree as it is then.
unfoldable pub update_from : Hasher → ℕ → ℕ → MerkleTree → Option Error × MerkleTree
unfolding promote compute_combined_hash
update_from hasher zero level m = (some panic, m)
update_from hasher (suc fuel) level m = elim (leb (len32 (m.tree level)) m.max_degree) [
  | true ↦ (none, m)
  | false ↦ elim (compute_combined_hash hasher (m.tree level)) [
    | err e ↦ (some e, m)
    | ok h ↦ update_from hasher fuel (level + 1) (promote level h m)
  ]
]

-- The fuel: the loop leaves a level at most once, and ends above the highest.
unfoldable pub update : Hasher → Hash → MerkleTree → Option Error × MerkleTree
unfolding set_level update_from
update hasher next_leaf m =
    update_from hasher (m.max_level + 2) leaf_level
      (set_level leaf_level (m.tree leaf_level ++ next_leaf ∷ []) m)

-- One node is moved up as it is; several are combined.
unfoldable pub node_of : Hasher → List Hash → Result Hash
unfolding compute_combined_hash
node_of hasher [] = err panic
node_of hasher (h ∷ []) = ok h
node_of hasher (h ∷ h' ∷ hs) = compute_combined_hash hasher (h ∷ h' ∷ hs)

-- The last step of `done`: a final level that is too long is combined into a level above it.
unfoldable pub finish : Hasher → MerkleTree → Option Error × MerkleTree
unfolding set_level compute_combined_hash
finish hasher m =
    if ltb m.max_degree (len32 (m.tree m.max_level))
    then (let m1 = record (set_level m.max_level [] m) { max_level = m.max_level + 1 } in
        elim (compute_combined_hash hasher (m.tree m.max_level)) [
          | err e ↦ (some e, m1)
          | ok h ↦ (none, set_level m1.max_level (h ∷ []) m1)
        ])
    else (none, m)

-- `tree[level]` is deleted and its node appended to the next level.
unfoldable pub lift : ℕ → Hash → MerkleTree → MerkleTree
unfolding set_level
lift level h m =
    let m1 = set_level level [] m in set_level (level + 1) (m1.tree (level + 1) ++ h ∷ []) m1

-- The loop of `done`: one round is one level below the highest.
unfoldable pub done_from : Hasher → ℕ → ℕ → MerkleTree → Option Error × MerkleTree
unfolding lift node_of finish
done_from hasher zero level m = finish hasher m
done_from hasher (suc rounds) level m = elim (m.tree level) [
  | [] ↦ done_from hasher rounds (level + 1) m
  | h ∷ hs ↦ elim (node_of hasher (h ∷ hs)) [
    | err e ↦ (some e, m)
    | ok g ↦ done_from hasher rounds (level + 1) (lift level g m)
  ]
]

unfoldable pub done : Hasher → MerkleTree → Option Error × MerkleTree
unfolding done_from
done hasher m = done_from hasher (m.max_level - leaf_level) leaf_level m

unfoldable pub get_summery : MerkleTree → QueryReadsMerkleSummary
get_summery m = record {
  max_degree = m.max_degree;
  max_level = m.max_level;
  max_level_hashes = m.tree m.max_level;
}

unfoldable pub is_empty_tree : MerkleTree → Bool
is_empty_tree m = m.max_level == 1 && length (m.tree m.max_level) == 0
