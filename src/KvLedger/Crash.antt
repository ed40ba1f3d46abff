-- ===== src/KvLedger/Crash.antt =====
-- A commit of kv_ledger.go that a crash interrupts, and the recovery at the next start.
use eloan_peer.KvLedger.Prepared.{Ready, prepare-Ready, prepare-db, commit-Ready}
use eloan_peer.Prelude.{
  ℕ, zero, suc, ◌≤◌, ◌<◌, ◌≡◌, ◌⊎◌, inl, inr, refl, sym, ap, ◌∙◌, true, some, List, [], ◌∷◌, Error,
  panic, Result, ok, Result-cases, All, get_elem?, arith,
}
use mathlib.Core.Path.{subst}
use eloan_peer.Prelude.GoString.{GoString}
use eloan_peer.Version.{two_64, new_height}
use eloan_peer.Version.Codec.{VarintCodec}
use eloan_peer.Rwset.Codec.{ProtoCodec}
use eloan_peer.StateLevelDb.{LevelDb}
use eloan_peer.StateLevelDb.Stores.{Stores}
use eloan_peer.Validator.Block.{Block, Decoders}
use eloan_peer.Ledger.{BlockStore}
use eloan_peer.TxMgr.{
  StateStore, BlockValidator, TxMgr, new_tx_mgr, validate_and_prepare, recoverable_tx_mgr,
  get_last_savepoint, commit_height,
}
use eloan_peer.TxMgr.Recovery.{Saves, SavedAt, HasCommitted}
use eloan_peer.TxMgr
use eloan_peer.History
use eloan_peer.History.{recoverable_history}
use eloan_peer.History.Recovery.{HasIndexed, saved}
use eloan_peer.KvLedger.{KvLedger, Run, passes, commit_history, commit_state, commit_block, commit}

pub All-get_elem? {κ ℓ} :
    {A : Type κ} (P : A → Type ℓ) (xs : List A) (i : ℕ) (x : A)
    → All P xs
    → get_elem? xs i ≡ some x
    → P x
All-get_elem? P [] i x all e = cc
All-get_elem? P (y ∷ xs) zero x (p, all) e = let same : y ≡ x = cc in subst P same p
All-get_elem? P (y ∷ xs) (suc i) x (p, all) e = All-get_elem? P xs i x all e

-- The first `n` blocks of a chain are in the block store.
pub record Holds (blocks : BlockStore Block) (chain : ℕ → Block) (n : ℕ) (s : blocks.Store)
    : Type 0 where
  pub height : blocks.get_blockchain_info s ≡ ok (some n)
  pub retrieves : (k : ℕ) → k < n → blocks.retrieve_block_by_number k s ≡ ok (chain k)

-- A block store takes the next block of a chain.
pub record Appends (blocks : BlockStore Block) (chain : ℕ → Block) : Type 0 where
  pub appends :
      (n : ℕ) (s s' : blocks.Store)
      → Holds blocks chain n s
      → blocks.add_block (chain n) s ≡ ok s'
      → Holds blocks chain (suc n) s'

module _ (blocks : BlockStore Block) (store : StateStore) (v : BlockValidator store)
    (codec : VarintCodec) (level : LevelDb) (proto : ProtoCodec) (decode : Decoders)
    (results_of : GoString → Result GoString) where
  abbrev pub Ledger : Type 0
  Ledger = KvLedger blocks store v codec level proto decode results_of

  -- The first blocks of a chain that the three stores have.
  pub record OnDisk (chain : ℕ → Block) (k i j : ℕ) (l : Ledger) : Type 0 where
    pub holds : Holds blocks chain k l.block_store
    pub committed : HasCommitted store v i l.txtmgmt
    pub indexed : HasIndexed codec level proto decode results_of j l.history_db
    pub committed_le : i ≤ k
    pub indexed_le : j ≤ k

  -- A commit ends with an error, or with the first `k` blocks in all three stores.
  abbrev pub FailsOrHas :
      (ℕ → Block) → ℕ → Run blocks store v codec level proto decode results_of → Type 0
  FailsOrHas chain k run = ((e : Error) × (run.1.0 ≡ some e)) ⊎ OnDisk chain k k k run.1.1

module _ (blocks : BlockStore Block) (store : StateStore) (v : BlockValidator store)
    (codec : VarintCodec) (level : LevelDb) (proto : ProtoCodec) (decode : Decoders)
    (results_of : GoString → Result GoString) (chain : ℕ → Block) (n : ℕ) (saves : Saves store)
    (law : Stores level) (appends : Appends blocks chain) (number : (chain n).number ≡ n)
    (fits : n < two_64) where
  abbrev At : ℕ → ℕ → ℕ → Ledger blocks store v codec level proto decode results_of → Type 0
  At = OnDisk blocks store v codec level proto decode results_of chain

  -- Where a crash may leave the three stores: none has more blocks than the block store.
  abbrev pub Recovers : Ledger blocks store v codec level proto decode results_of → Type 0
  Recovers r = (k i j : ℕ) × (n ≤ k) × (k ≤ suc n) × At k i j r

  -- Every ledger that a commit passes through can be recovered, and the commit ends with an error or
  -- with the block in all three stores.
  abbrev pub Safe : Run blocks store v codec level proto decode results_of → Type 0
  Safe run =
      All Recovers run.0
      × FailsOrHas blocks store v codec level proto decode results_of chain (suc n) run

  stored-Holds :
      (s s' : blocks.Store)
      → Holds blocks chain n s
      → blocks.add_block (chain n) s ≡ ok s'
      → Holds blocks chain (suc n) s'
  stored-Holds s s' before a = appends.appends n s s' before a

  written-indexed :
      (b' : Block) (s s' : level.Store)
      → History.commit codec level proto decode results_of (chain n) s ≡ ok (b', s')
      → HasIndexed codec level proto decode results_of (suc n) s'
  unfolding HasIndexed
  written-indexed b' s s' d =
      subst
        (λ k. SavedAt (suc k) (History.get_last_savepoint codec level proto decode results_of s'))
        number (saved codec level proto decode results_of (chain n) b' s s' law (omega arith) d)

  history-Safe :
      (l : Ledger blocks store v codec level proto decode results_of)
      → At (suc n) (suc n) n l
      → Safe (commit_history blocks store v codec level proto decode results_of true (chain n) l)
  unfolding commit_history
  history-Safe l disk =
      elim (Result-cases
        (History.commit codec level proto decode results_of (chain n) l.history_db)) [
          | inr (e, d) ↦ rw (d, commit_history) (tt, inl (panic, refl))
          | inl (p, d) ↦
              let done : At (suc n) (suc n) (suc n) (record l { history_db = p.1 }) = record {
                holds = disk.holds;
                committed = disk.committed;
                indexed = written-indexed p.0 l.history_db p.1 d;
                committed_le = omega arith;
                indexed_le = omega arith;
              } in
              rw (d, commit_history)
                (((suc n, suc n, suc n, omega arith, omega arith, done), tt), inr done)
        ]

  state-Safe :
      (m0 : TxMgr store v) (l : Ledger blocks store v codec level proto decode results_of)
      → Ready store v m0 (chain n) l.txtmgmt
      → At (suc n) n n l
      → Safe (commit_state blocks store v codec level proto decode results_of true (chain n) l)
  unfolding commit_state passes HasCommitted SavedAt commit_height new_height
  state-Safe m0 l ready disk =
      let (fine, saved_at) = commit-Ready store v (chain n) m0 l.txtmgmt saves ready in
      let written : At (suc n) (suc n) n
          (record l { txtmgmt = (TxMgr.commit store v l.txtmgmt).1 }) =
        record {
          holds = disk.holds;
          committed = (commit_height store v (chain n), saved_at, number);
          indexed = disk.indexed;
          committed_le = omega arith;
          indexed_le = omega arith;
        } in
      let (later, final) = history-Safe _ written in
      rw (fine, commit_state, passes)
        (((suc n, suc n, n, omega arith, omega arith, written), later), final)

  block-Safe :
      (m0 : TxMgr store v) (l : Ledger blocks store v codec level proto decode results_of)
      → Ready store v m0 (chain n) l.txtmgmt
      → At n n n l
      → Safe (commit_block blocks store v codec level proto decode results_of true (chain n) l)
  unfolding commit_block passes
  block-Safe m0 l ready disk = elim (Result-cases (blocks.add_block (chain n) l.block_store)) [
    | inr (e, a) ↦ rw (a, commit_block) (tt, inl (e, refl))
    | inl (s, a) ↦
        let stored : At (suc n) n n (record l { block_store = s }) = record {
          holds = stored-Holds l.block_store s disk.holds a;
          committed = disk.committed;
          indexed = disk.indexed;
          committed_le = omega arith;
          indexed_le = omega arith;
        } in
        let (later, final) = state-Safe m0 (record l { block_store = s }) ready stored in
        rw (a, commit_block, passes)
          (((suc n, n, n, omega arith, omega arith, stored), later), final)
  ]

  prepared-At :
      (block : Block) (l : Ledger blocks store v codec level proto decode results_of)
      → At n n n l
      → At n n n (record l { txtmgmt = (validate_and_prepare store v block true l.txtmgmt).1 })
  unfolding HasCommitted get_last_savepoint
  prepared-At block l disk = record {
    holds = disk.holds;
    committed =
        subst (λ d. SavedAt n (store.get_latest_save_point d))
          (sym (prepare-db store v block true l.txtmgmt)) disk.committed;
    indexed = disk.indexed;
    committed_le = omega arith;
    indexed_le = omega arith;
  }

  -- For a validator that leaves the next block of the chain where it accepts the block.
  pub commit-Safe :
      (block : Block) (l : Ledger blocks store v codec level proto decode results_of)
      → At n n n l
      → ((b : Block) (m : TxMgr store v)
          → validate_and_prepare store v block true l.txtmgmt ≡ (ok b, m)
          → b ≡ chain n)
      → Safe (commit blocks store v codec level proto decode results_of true block l)
  unfolding commit passes
  commit-Safe block l disk next =
      let p = validate_and_prepare store v block true l.txtmgmt in
      let prepared = prepared-At block l disk in
      elim (Result-cases p.0) [
        | inr (e, q) ↦
            rw (q, commit, passes)
              (((n, n, n, omega arith, omega arith, prepared), tt), inl (e, refl))
        | inl (b, q) ↦
            let whole : p ≡ (ok b, p.1) = ap (λ o. (o, p.1)) q in
            let same : b ≡ chain n = next b p.1 whole in
            let ready =
              prepare-Ready store v block (chain n) true l.txtmgmt p.1
                (whole ∙ ap (λ c. (ok c, p.1)) same) in
            let (later, final) = block-Safe l.txtmgmt (record l { txtmgmt = p.1 }) ready prepared in
            rw (q ∙ ap ok same, commit, passes)
              (((n, n, n, omega arith, omega arith, prepared), later), final)
      ]
