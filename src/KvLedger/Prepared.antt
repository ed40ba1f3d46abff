-- ===== src/KvLedger/Prepared.antt =====
-- What `ValidateAndPrepare` of lockbased_txmgr.go leaves for `Commit`.
use eloan_peer.Prelude.{
  ◌≡◌, refl, inl, inr, sym, ap, ◌∙◌, Bool, none, some, ok, err, Result-cases, arith,
}
use eloan_peer.StateDb.{UpdateBatch}
use eloan_peer.Validator.Block.{Block}
use eloan_peer.TxMgr.{
  StateStore, BlockValidator, TxMgr, new_tx_mgr, validate_and_prepare, recoverable_tx_mgr,
  get_last_savepoint, commit_height,
}
use eloan_peer.TxMgr.Recovery.{Saves}
use eloan_peer.TxMgr
use eloan_peer.History.Recovery.{saved}

module _ (store : StateStore) (v : BlockValidator store) where
  -- A block that was prepared is the current one, with a batch; the database is as before.
  unfoldable pub Ready : TxMgr store v → Block → TxMgr store v → Type 0
  Ready m0 b m =
      (m.db ≡ m0.db) × (batch : UpdateBatch) × (m.batch ≡ some batch) × (m.current_block ≡ some b)

  pub prepare-Ready :
      (block b : Block) (flag : Bool) (m0 m : TxMgr store v)
      → validate_and_prepare store v block flag m0 ≡ (ok b, m)
      → Ready m0 b m
  unfolding validate_and_prepare Ready
  prepare-Ready block b flag m0 m e =
      let p = v.validate_and_prepare_batch block flag m0.db m0.validator in
      elim (Result-cases p.0) [
        | inl (r, q) ↦
            let same = rw (q, validate_and_prepare) at e in
            (
              sym (ap (λ x. x.1.db) same),
              r.0,
              sym (ap (λ x. x.1.batch) same),
              sym (ap (λ x. x.1.current_block) same)
                  ∙ ap (λ x. elim x.0 [ err y ↦ none | ok c ↦ some c ]) same,
            )
        | inr (x, q) ↦ cc (rw (q, validate_and_prepare) at e)
      ]

  -- The database is as before whether the block is prepared or not.
  pub prepare-db :
      (block : Block) (flag : Bool) (m0 : TxMgr store v)
      → (validate_and_prepare store v block flag m0).1.db ≡ m0.db
  unfolding validate_and_prepare
  prepare-db block flag m0 =
      elim (Result-cases (v.validate_and_prepare_batch block flag m0.db m0.validator).0) [
        | inl (r, q) ↦ rw (q, validate_and_prepare) refl
        | inr (x, q) ↦ rw (q, validate_and_prepare) refl
      ]

  -- A prepared block is committed to a database that takes every batch.
  pub commit-Ready :
      (b : Block) (m0 m : TxMgr store v)
      → Saves store
      → Ready m0 b m
      → ((TxMgr.commit store v m).0 ≡ none)
        × (get_last_savepoint store v (TxMgr.commit store v m).1
            ≡ ok (some (commit_height store v b)))
  unfolding TxMgr.commit Ready get_last_savepoint
  commit-Ready b m0 m saves (same, batch, some_batch, current) =
      let (s', applied, saved) = saves.saves batch (commit_height store v b) m.db in
      (
        ground (arith, some_batch, current, applied),
        ground (arith, some_batch, current, applied, saved),
      )
