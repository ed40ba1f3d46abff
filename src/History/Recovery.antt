-- ===== src/History/Recovery.antt =====
-- The history database as a database that is recovered: `GetLastSavepoint`, `ShouldRecover` and
-- `CommitLostBlock` of historyleveldb.go.
use eloan_peer.Prelude.{
  ℕ, zero, suc, ◌+◌, ◌%◌, ◌<◌, ◌≡◌, refl, sym, ap, true, List, [], ◌∷◌, Result, ok, >>=-eq-ok,
  arith,
}
use mathlib.Core.Path.{subst}
use eloan_peer.Prelude.GoString.{GoString}
use eloan_peer.Version.{new_height, two_64, IsUint64}
use eloan_peer.Version.Codec.{VarintCodec}
use eloan_peer.Rwset.Codec.{ProtoCodec}
use eloan_peer.StateLevelDb.{Write, LevelDb, save_point_key}
use eloan_peer.StateLevelDb.Stores.{Stores, get-write_last, height-back}
use eloan_peer.TxValidationFlags.{TxValidationFlags}
use eloan_peer.Validator.Block.{Block, Decoders, flags_of}
use eloan_peer.Ledger.Recovery.{KeepsUp, recover_point}
use eloan_peer.TxMgr.Recovery.{SavedAt}
use eloan_peer.History.Committed.{ok-inj}
use eloan_peer.History.{
  batch_of, block_history, tx_history, commit, get_last_savepoint, savepoint_of, recover_flag,
  should_recover, recoverable_history,
}

-- The blocks of a chain, numbered, with their flags, and with records that the store takes.
pub record Indexes (codec : VarintCodec) (level : LevelDb) (proto : ProtoCodec) (decode : Decoders)
    (results_of : GoString → Result GoString) (chain : ℕ → Block) (height : ℕ) : Type 0 where
  pub numbers : (n : ℕ) → (chain n).number ≡ n
  pub flagged : (n : ℕ) → n < height → flags_of (chain n) ≡ (chain n).filter
  pub indexes :
      (n : ℕ)
      → n < height
      → (ws : List Write) × (batch_of codec level proto decode results_of (chain n) ≡ ok ws)
        × ((s : level.Store) → (s' : level.Store) × (level.write_batch ws s ≡ ok s'))

module _ (codec : VarintCodec) (level : LevelDb) (proto : ProtoCodec) (decode : Decoders)
    (results_of : GoString → Result GoString) where
  unfoldable pub HasIndexed : ℕ → level.Store → Type 0
  HasIndexed k s = SavedAt k (get_last_savepoint codec level proto decode results_of s)

  -- The counter of the transactions stays a uint64.
  count_fits :
      (b t : ℕ) (flags : TxValidationFlags) (l : List GoString) (p : List Write × ℕ)
      → t < two_64
      → block_history codec level proto decode results_of b t flags l ≡ ok p
      → p.1 < two_64
  unfolding block_history
  count_fits b t flags [] p low e = subst (λ q. q.1 < two_64) (ok-inj e) low
  count_fits b t flags (env ∷ l) p low e =
      let (ws, e1, r1) =
        >>=-eq-ok (tx_history codec level proto decode results_of b t flags env) _ e in
      let (rest, e2, r2) =
        >>=-eq-ok (block_history codec level proto decode results_of b ((t + 1) % two_64) flags l) _
          r1 in
      subst (λ q. q.1 < two_64) (ok-inj r2)
        (count_fits b ((t + 1) % two_64) flags l rest (omega arith) e2)

  -- After a block that was committed, the save point is its number and a count of transactions.
  pub saved :
      (block block' : Block) (s s' : level.Store)
      → Stores level
      → block.number < two_64
      → commit codec level proto decode results_of block s ≡ ok (block', s')
      → SavedAt (suc block.number) (get_last_savepoint codec level proto decode results_of s')
  unfolding commit batch_of SavedAt get_last_savepoint savepoint_of new_height
  saved block block' s s' law low done =
      let (ws, batch, r1) = >>=-eq-ok (batch_of codec level proto decode results_of block) _ done in
      let (t, wrote, r2) = >>=-eq-ok (level.write_batch ws s) _ r1 in
      let (p, records, r3) =
        >>=-eq-ok
          (block_history codec level proto decode results_of block.number 0 (flags_of block)
            block.tx_data)
          _ batch in
      let h = new_height block.number p.1 in
      let fits : IsUint64 h = record {
        block_fits = low;
        tx_fits = count_fits block.number 0 (flags_of block) block.tx_data p (omega arith) records;
      } in
      let stored =
        get-write_last codec level law p.0 save_point_key h s t
          (subst (λ l. level.write_batch l s ≡ ok t) (sym (ok-inj r3)) wrote) in
      let back = height-back codec h fits in
      subst
        (λ x. SavedAt (suc block.number) (get_last_savepoint codec level proto decode results_of x))
        (ap (λ q. q.1) (ok-inj r2)) (h, ground (arith, stored, back), refl)

  asks_lem :
      (k last : ℕ) (s : level.Store)
      → k < two_64
      → HasIndexed k s
      → should_recover codec level proto decode results_of true last s ≡ ok (recover_point k last)
  unfolding HasIndexed SavedAt should_recover recover_flag recover_point
  asks_lem zero last m fits saved = ground (arith, saved)
  asks_lem (suc n) last m fits (h, saved, number) = ground (arith, saved, number)

  takes_lem :
      (chain : ℕ → Block) (height k : ℕ) (s : level.Store)
      → Stores level
      → Indexes codec level proto decode results_of chain height
      → height < two_64
      → k < height
      → (s' : level.Store) × (commit codec level proto decode results_of (chain k) s
          ≡ ok (chain k, s'))
        × HasIndexed (suc k) s'
  unfolding commit HasIndexed
  takes_lem chain height k s law ix fits low =
      let (ws, batch, writes) = ix.indexes k low in
      let (s', wrote) = writes s in
      let done : commit codec level proto decode results_of (chain k) s ≡ ok (chain k, s') =
        ground (arith, batch, wrote, ix.flagged k low) in
      (
        s',
        done,
        subst (λ n. SavedAt (suc n) (get_last_savepoint codec level proto decode results_of s'))
            (ix.numbers k) (saved (chain k) (chain k) s s' law (omega (arith, ix.numbers k)) done),
      )

  -- The history database, where it is enabled, asks for the block behind its save point, and takes
  -- it: on a store that reads what it has written, for a chain of fewer than 2^64 numbered blocks
  -- with their flags whose records the store takes.
  pub recoverable_history-KeepsUp :
      (chain : ℕ → Block) (height : ℕ)
      → Stores level
      → Indexes codec level proto decode results_of chain height
      → height < two_64
      → KeepsUp
          (recoverable_history codec level proto decode results_of true)
          chain
          height
          HasIndexed
  recoverable_history-KeepsUp chain height law ix fits = record {
    asks = λ k last s low at. asks_lem k last s (omega arith) at;
    takes = λ k s low at. takes_lem chain height k s law ix fits low;
  }
