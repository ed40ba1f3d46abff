-- ===== src/Rwset/ResultsHelper.antt =====
-- RangeQueryResultsHelper of query_results_helper.go: results are hashed once there are many.
pub mod Degree
pub mod Outcome
use eloan_peer.Prelude.{
  ℕ, ◌+◌, ◌^◌, Bool, true, false, not, ◌&&◌, ◌||◌, Option, none, some, List, [], ◌∷◌, ◌++◌, Error,
  Result, ok, err, panic, ltb, ◌==◌, if◌then◌else◌, length,
}
use eloan_peer.Prelude.GoString.{GoString}
use eloan_peer.Rwset.{KvRead, QueryReadsMerkleSummary}
use eloan_peer.Rwset.MerkleTree.{
  Hasher, MerkleTree, new_merkle_tree, update, done, get_summery, is_empty_tree, len32,
}

pub record ResultsHelper : Type 0 where
  pub pending_results : List KvRead
  pub mt : Option MerkleTree
  pub max_degree : ℕ
  pub hashing_enabled : Bool

unfoldable pub new_results_helper : Bool → ℕ → Result ResultsHelper
new_results_helper false max_degree =
    ok
      (record { pending_results = []; mt = none; max_degree = max_degree; hashing_enabled = false })
new_results_helper true max_degree = elim (new_merkle_tree max_degree) [
  | err e ↦ err e
  | ok m ↦ ok (record {
    pending_results = [];
    mt = some m;
    max_degree = max_degree;
    hashing_enabled = true;
  })
]

-- `serialize` is `proto.Marshal` of the reads; `hasher` the crypto provider. Both are libraries'.
module _ (serialize : List KvRead → Result GoString) (hasher : Hasher) where
  -- The error that `update` returns is dropped; a nil tree panics.
  update_tree : GoString → Option MerkleTree → ResultsHelper → Option Error × ResultsHelper
  update_tree h none helper = (some panic, helper)
  update_tree h (some m) helper = (none, record helper { mt = some (update hasher h m).1 })

  hash_pending : Result GoString → ResultsHelper → Option Error × ResultsHelper
  unfolding update_tree
  hash_pending (err e) helper = (some e, helper)
  hash_pending (ok b) helper =
      let cleared = record helper { pending_results = [] } in
      elim (hasher b) [ err e ↦ (some e, cleared) | ok h ↦ update_tree h helper.mt cleared ]

  unfoldable pub process_pending_results : ResultsHelper → Option Error × ResultsHelper
  unfolding hash_pending
  process_pending_results helper = hash_pending (serialize helper.pending_results) helper

  unfoldable pub add_result : KvRead → ResultsHelper → Option Error × ResultsHelper
  unfolding process_pending_results
  add_result kv_read helper =
      let added = record helper { pending_results = helper.pending_results ++ kv_read ∷ [] } in
      if helper.hashing_enabled && ltb helper.max_degree (len32 added.pending_results)
      then process_pending_results added
      else (none, added)

  -- What `Done` returns: the results left, the summary, and the error.
  pub record Final : Type 0 where
    pub results : List KvRead
    pub summary : Option QueryReadsMerkleSummary
    pub error : Option Error

  -- The error of the tree's `done` is dropped.
  summarize : Option Error × ResultsHelper → Final
  summarize (some e, helper) = record {
    results = helper.pending_results;
    summary = none;
    error = some e;
  }
  summarize (none, helper) = elim helper.mt [
    | none ↦ record { results = helper.pending_results; summary = none; error = some panic }
    | some m ↦ record {
      results = helper.pending_results;
      summary = some (get_summery (done hasher m).1);
      error = none;
    }
  ]

  abbrev is_empty_list : List KvRead → Bool
  is_empty_list [] = true
  is_empty_list (r ∷ rs) = false

  -- A nil tree is not empty here, so that it panics where it is used behind the test.
  mt_is_empty : Option MerkleTree → Bool
  unfolding is_empty_tree
  mt_is_empty none = false
  mt_is_empty (some m) = is_empty_tree m

  unfoldable pub helper_done : ResultsHelper → Final
  unfolding mt_is_empty summarize process_pending_results
  helper_done helper =
      if not helper.hashing_enabled || mt_is_empty helper.mt
      then record { results = helper.pending_results; summary = none; error = none }
      else if is_empty_list helper.pending_results
      then summarize (none, helper)
      else summarize (process_pending_results helper)

  -- Of a nil tree it is none, as without hashing: the caller panics on both.
  unfoldable pub get_merkle_summary : ResultsHelper → Option QueryReadsMerkleSummary
  get_merkle_summary helper =
      if not helper.hashing_enabled
      then none
      else elim helper.mt [ none ↦ none | some m ↦ some (get_summery m) ]

  -- The callers feed the results one by one and drop the error of `AddResult`.
  unfoldable pub add_results : List KvRead → ResultsHelper → ResultsHelper
  add_results [] helper = helper
  add_results (r ∷ rs) helper = add_results rs (add_result r helper).1
