-- ===== src/TxMgr/Recovery.antt =====
-- The transaction manager as a database that is recovered: `ShouldRecover` and `CommitLostBlock` of
-- lockbased_txmgr.go, over a state database that keeps its save point.
use eloan_peer.Prelude.{ℕ, zero, suc, ◌<◌, ◌≡◌, false, Option, none, some, Result, ok, arith}
use eloan_peer.Version.{Height, new_height, two_64}
use eloan_peer.StateDb.{UpdateBatch}
use eloan_peer.Validator.Block.{Block}
use eloan_peer.Ledger.Recovery.{KeepsUp, recover_point}
use eloan_peer.TxMgr.{
  StateStore, BlockValidator, TxMgr, validate_and_prepare, commit_height, commit,
  get_last_savepoint, should_recover, or_block, commit_prepared, commit_lost_block, block_and_state,
  recoverable_tx_mgr,
}

-- A save point after the first `k` blocks.
unfoldable pub SavedAt : ℕ → Result (Option Height) → Type 0
SavedAt zero r = r ≡ ok none
SavedAt (suc n) r = (h : Height) × (r ≡ ok (some h)) × (h.block_num ≡ n)

-- A database that takes every batch, and then has its save point.
pub record Saves (store : StateStore) : Type 0 where
  pub saves :
      (batch : UpdateBatch) (h : Height) (s : store.State)
      → (s' : store.State) × (store.apply_updates batch h s ≡ (none, s'))
        × (store.get_latest_save_point s' ≡ ok (some h))

-- A validator that, without the checks of versions, prepares the blocks of a chain that are
-- validated already: it leaves their flags.
pub record Prepares (store : StateStore) (v : BlockValidator store) (chain : ℕ → Block) (height : ℕ)
    : Type 0 where
  pub numbers : (n : ℕ) → (chain n).number ≡ n
  pub prepares :
      (n : ℕ) (s : store.State) (w : v.Validator)
      → n < height
      → (batch : UpdateBatch) × (w' : v.Validator) × (v.validate_and_prepare_batch
            (chain n)
            false
            s
            w
          ≡ (ok (batch, (chain n).filter), w'))

module _ (store : StateStore) (v : BlockValidator store) where
  -- A manager that has committed `k` blocks.
  unfoldable pub HasCommitted : ℕ → TxMgr store v → Type 0
  HasCommitted k m = SavedAt k (get_last_savepoint store v m)

  asks_lem :
      (k last : ℕ) (m : TxMgr store v)
      → k < two_64
      → HasCommitted k m
      → should_recover store v last m ≡ ok (recover_point k last)
  unfolding HasCommitted SavedAt should_recover recover_point
  asks_lem zero last m fits saved = ground (arith, saved)
  asks_lem (suc n) last m fits (h, saved, number) = ground (arith, saved, number)

  takes_lem :
      (chain : ℕ → Block) (height k : ℕ) (m : TxMgr store v)
      → Saves store
      → Prepares store v chain height
      → k < height
      → (m' : TxMgr store v) × (block_and_state store v (commit_lost_block store v (chain k) m)
          ≡ ok (chain k, m'))
        × HasCommitted (suc k) m'
  unfolding HasCommitted SavedAt block_and_state commit_lost_block commit_prepared or_block commit
      validate_and_prepare get_last_savepoint commit_height new_height
  takes_lem chain height k m saves prepares low =
      let (batch, w, prepared) = prepares.prepares k m.db m.validator low in
      let (s', applied, saved) = saves.saves batch (commit_height store v (chain k)) m.db in
      (
        record { db = s'; validator = w; batch = none; current_block = some (chain k) },
        ground (arith, prepared, applied),
        (commit_height store v (chain k), saved, prepares.numbers k),
      )

  -- A manager asks for the block behind its save point, and takes it, for a chain of fewer than 2^64
  -- blocks, a database that takes every batch with its save point, and a validator that prepares the
  -- blocks of the chain.
  pub recoverable_tx_mgr-KeepsUp :
      (chain : ℕ → Block) (height : ℕ)
      → Saves store
      → Prepares store v chain height
      → height < two_64
      → KeepsUp (recoverable_tx_mgr store v) chain height HasCommitted
  recoverable_tx_mgr-KeepsUp chain height saves prepares fits = record {
    asks = λ k last m low saved. asks_lem k last m (omega arith) saved;
    takes = λ k m low saved. takes_lem chain height k m saves prepares low;
  }
