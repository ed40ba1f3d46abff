-- ===== src/Ledger.antt =====
-- core/ledger/kvledger: a ledger keeps a store of blocks, a state database and a history database.
-- This file has the interfaces of the three, and the recovery of kv_ledger.go.
pub mod Recovery
pub mod Synced
use eloan_peer.Prelude.{
  ℕ, zero, suc, ◌+◌, ◌-◌, ◌%◌, Bool, true, false, Option, none, some, List, [], ◌∷◌, Result, ok,
  err, panic, ◌>>=◌, ◌==◌, ltb,
}
use eloan_peer.VersionedDb.{or_nil}
use eloan_peer.Version.{two_64}

-- The block store of a library: `get_blockchain_info` gives the height.
pub record BlockStore (Block : Type 0) : Type 1 where
  pub Store : Type 0
  pub get_blockchain_info : Store → Result (Option ℕ)
  pub retrieve_block_by_number : ℕ → Store → Result Block
  pub add_block : Block → Store → Result Store

-- The interface `recoverable` of recovery.go. A database that recommits a block may set its flags,
-- so the block comes back.
pub record Recoverable (Block : Type 0) : Type 1 where
  pub State : Type 0
  pub should_recover : ℕ → State → Result (Bool × ℕ)
  pub commit_lost_block : Block → State → Result (Block × State)

-- What a pointer to a recoverable database points to.
pub data Target : Type 0 where
  state_db : Target
  history_db : Target

-- A database with the block from which it is behind.
pub record Recoverer : Type 0 where
  pub first_block_num : ℕ
  pub recoverable : Target

module _ {Block : Type 0} (txtmgmt history : Recoverable Block) where
  pub record Databases : Type 0 where
    pub txtmgmt_state : txtmgmt.State
    pub history_state : history.State

  unfoldable pub should_recover_of : Target → ℕ → Databases → Result (Bool × ℕ)
  should_recover_of state_db last s = txtmgmt.should_recover last s.txtmgmt_state
  should_recover_of history_db last s = history.should_recover last s.history_state

  unfoldable pub commit_to : Target → Block → Databases → Result (Block × Databases)
  commit_to state_db block s = do
    p ← txtmgmt.commit_lost_block block s.txtmgmt_state
    ok (p.0, record s { txtmgmt_state = p.1 })
  commit_to history_db block s = do
    p ← history.commit_lost_block block s.history_state
    ok (p.0, record s { history_state = p.1 })

  unfoldable pub commit_to_each : List Target → Block → Databases → Result Databases
  commit_to_each [] block s = ok s
  commit_to_each (r ∷ rs) block s = do p ← commit_to r block s; commit_to_each rs p.0 p.1

  -- The databases that are behind, in the order of the list.
  unfoldable pub recoverers_of : List Target → ℕ → Databases → Result (List Recoverer)
  recoverers_of [] last s = ok []
  recoverers_of (r ∷ rs) last s = do
    p ← should_recover_of r last s
    rest ← recoverers_of rs last s
    elim p.0 [
      | true ↦ ok ((record { first_block_num = p.1; recoverable = r }) ∷ rest)
      | false ↦ ok rest
    ]

-- After a step that ended before the fuel did.
unfoldable pub after {ℓ} : {A : Type ℓ} → Option A → (A → Result (Option A)) → Result (Option A)
after none next = ok none
after (some a) next = next a

module _ {Block : Type 0} (blocks : BlockStore Block) (txtmgmt history : Recoverable Block) where
  -- The loop over a counter of 64 bits; `none` where the fuel ends before the loop.
  unfoldable pub recommit_lost_blocks :
      ℕ
      → ℕ
      → ℕ
      → List Target
      → blocks.Store
      → Databases txtmgmt history
      → Result (Option (Databases txtmgmt history))
  recommit_lost_blocks zero block_number last rs store s = ok none
  recommit_lost_blocks (suc fuel) block_number last rs store s = elim (ltb last block_number) [
    | true ↦ ok (some s)
    | false ↦ (do
      block ← blocks.retrieve_block_by_number block_number store
      s' ← commit_to_each txtmgmt history rs block s
      recommit_lost_blocks fuel ((block_number + 1) % two_64) last rs store s')
  ]

  -- Both databases are behind, the first at least as far as the second.
  unfoldable pub recover_both :
      ℕ
      → ℕ
      → Recoverer
      → Recoverer
      → blocks.Store
      → Databases txtmgmt history
      → Result (Option (Databases txtmgmt history))
  recover_both fuel last a b store s = do
    o ← elim (a.first_block_num == b.first_block_num) [
      | true ↦ ok (some s)
      | false ↦
          recommit_lost_blocks fuel a.first_block_num ((b.first_block_num + (two_64 - 1)) % two_64)
            (a.recoverable ∷ []) store s
    ]
    after o (λ s'.
        recommit_lost_blocks fuel b.first_block_num last (a.recoverable ∷ b.recoverable ∷ []) store
          s')

  unfoldable pub recover_from :
      ℕ
      → ℕ
      → List Recoverer
      → blocks.Store
      → Databases txtmgmt history
      → Result (Option (Databases txtmgmt history))
  recover_from fuel last [] store s = ok (some s)
  recover_from fuel last (a ∷ []) store s =
      recommit_lost_blocks fuel a.first_block_num last (a.recoverable ∷ []) store s
  recover_from fuel last (a ∷ b ∷ rest) store s = elim (ltb b.first_block_num a.first_block_num) [
    | true ↦ recover_both fuel last b a store s
    | false ↦ recover_both fuel last a b store s
  ]

  -- The error of `GetBlockchainInfo` is dropped, and a nil pointer panics.
  unfoldable pub recover_dbs :
      ℕ → blocks.Store → Databases txtmgmt history → Result (Option (Databases txtmgmt history))
  recover_dbs fuel store s = do
    info ← or_nil (blocks.get_blockchain_info store)
    elim info [
      | none ↦ err panic
      | some zero ↦ ok (some s)
      | some (suc last) ↦ (do
        rs ← recoverers_of txtmgmt history (state_db ∷ history_db ∷ []) last s
        recover_from fuel last rs store s)
    ]
