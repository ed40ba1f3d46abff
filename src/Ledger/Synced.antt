-- ===== src/Ledger/Synced.antt =====
-- Recovery brings both databases up to the block store: `recoverDBs` of kv_ledger.go.
use eloan_peer.Prelude.{
  ℕ, zero, suc, ◌≤◌, ◌<◌, ◌≡◌, some, [], ◌∷◌, ok, ◌==◌, ltb, Bool-cases, inl, inr, arith,
}
use mathlib.Core.Path.{subst}
use eloan_peer.VersionedDb.{or_nil}
use eloan_peer.Version.{two_64}
use eloan_peer.Ledger.{
  BlockStore, Recoverable, state_db, history_db, Databases, recover_from, recover_dbs,
}
use eloan_peer.Ledger.Recovery.{
  KeepsUp, behind, recommit-Leads, recover_both-Leads, leads_state, leads_history, leads_both,
  leads_swapped, recoverers_of_lem,
}

module _ {Block : Type 0} (blocks : BlockStore Block) (txtmgmt history : Recoverable Block)
    (chain : ℕ → Block) (store : blocks.Store) {A : ℕ → txtmgmt.State → Type 0}
    {B : ℕ → history.State → Type 0} (last : ℕ) (ups : KeepsUp txtmgmt chain (suc last) A)
    (downs : KeepsUp history chain (suc last) B)
    (get : (n : ℕ) → n < suc last → blocks.retrieve_block_by_number n store ≡ ok (chain n))
    (fits : suc last < two_64) where
  recover_from-behind :
      (fuel i j : ℕ) (s : Databases txtmgmt history)
      → i ≤ suc last
      → j ≤ suc last
      → suc last < fuel
      → A i s.txtmgmt_state
      → B j s.history_state
      → (s' : Databases txtmgmt history) × (recover_from blocks txtmgmt history fuel last
            (behind state_db i (suc last) (behind history_db j (suc last) []))
            store
            s
          ≡ ok (some s'))
        × A (suc last) s'.txtmgmt_state
        × B (suc last) s'.history_state
  unfolding recover_from behind
  recover_from-behind fuel i j s low low' enough a b = elim (Bool-cases (i == suc last)) [
    | inl end ↦ elim (Bool-cases (j == suc last)) [
      | inl end' ↦ (
        s,
        ground arith,
        subst (λ n. A n s.txtmgmt_state) (ground arith) a,
        subst (λ n. B n s.history_state) (ground arith) b,
      )
      | inr lack ↦
          let (s', run, p) =
            recommit-Leads blocks txtmgmt history chain store fuel j last (suc last)
              (history_db ∷ []) (λ n t. A i t.txtmgmt_state × B n t.history_state) s get
              (leads_history blocks txtmgmt history chain store (suc last) ups downs i) fits low'
              (omega arith) (omega arith) (a, b) in
          (s', ground (arith, run), subst (λ n. A n s'.txtmgmt_state) (ground arith) p.0, p.1)
    ]
    | inr lack ↦ elim (Bool-cases (j == suc last)) [
      | inl end' ↦
          let (s', run, p) =
            recommit-Leads blocks txtmgmt history chain store fuel i last (suc last) (state_db ∷ [])
              (λ n t. A n t.txtmgmt_state × B j t.history_state) s get
              (leads_state blocks txtmgmt history chain store (suc last) ups downs j) fits low
              (omega arith) (omega arith) (a, b) in
          (s', ground (arith, run), p.0, subst (λ n. B n s'.history_state) (ground arith) p.1)
      | inr lack' ↦ elim (Bool-cases (ltb j i)) [
        | inl swap ↦
            let (s', run, p) =
              recover_both-Leads blocks txtmgmt history chain store fuel last j i history_db
                state_db (λ n t. A i t.txtmgmt_state × B n t.history_state)
                (λ n t. A n t.txtmgmt_state × B n t.history_state) s get
                (leads_history blocks txtmgmt history chain store (suc last) ups downs i)
                (leads_swapped blocks txtmgmt history chain store (suc last) ups downs) fits
                (ground arith) (ground arith) enough (a, b) (λ t x. x) in
            (s', ground (arith, run), p.0, p.1)
        | inr keep ↦
            let (s', run, p) =
              recover_both-Leads blocks txtmgmt history chain store fuel last i j state_db
                history_db (λ n t. A n t.txtmgmt_state × B j t.history_state)
                (λ n t. A n t.txtmgmt_state × B n t.history_state) s get
                (leads_state blocks txtmgmt history chain store (suc last) ups downs j)
                (leads_both blocks txtmgmt history chain store (suc last) ups downs) fits
                (ground arith) (ground arith) enough (a, b) (λ t x. x) in
            (s', ground (arith, run), p.0, p.1)
      ]
    ]
  ]

-- Recovery ends, without an error, with both databases at the height of the block store, wherever
-- in the chain either of them was: with fuel above the height, for a height of 64 bits, a store that
-- answers with the blocks of the chain, and databases that ask for and take their next block.
pub recover_dbs-Synced :
    {Block : Type 0} (blocks : BlockStore Block) (txtmgmt history : Recoverable Block)
    (chain : ℕ → Block) (store : blocks.Store) (A : ℕ → txtmgmt.State → Type 0)
    (B : ℕ → history.State → Type 0) (height fuel i j : ℕ) (s : Databases txtmgmt history)
    → KeepsUp txtmgmt chain height A
    → KeepsUp history chain height B
    → blocks.get_blockchain_info store ≡ ok (some height)
    → ((n : ℕ) → n < height → blocks.retrieve_block_by_number n store ≡ ok (chain n))
    → height < two_64
    → height < fuel
    → i ≤ height
    → j ≤ height
    → A i s.txtmgmt_state
    → B j s.history_state
    → (s' : Databases txtmgmt history) × (recover_dbs blocks txtmgmt history fuel store s
        ≡ ok (some s'))
      × A height s'.txtmgmt_state
      × B height s'.history_state
unfolding recover_dbs or_nil
recover_dbs-Synced blocks txtmgmt history chain store A B zero fuel i j s ups downs info get fits
      enough low low' a b =
    (
      s,
      ground (arith, info),
      subst (λ n. A n s.txtmgmt_state) (omega arith) a,
      subst (λ n. B n s.history_state) (omega arith) b,
    )
recover_dbs-Synced blocks txtmgmt history chain store A B (suc last) fuel i j s ups downs info get
      fits enough low low' a b =
    let (s', run, p, q) =
      recover_from-behind blocks txtmgmt history chain store last ups downs get fits fuel i j s low
        low' enough a b in
    (
      s',
      ground (
        arith,
        info,
        recoverers_of_lem blocks txtmgmt history chain store (suc last) ups downs i j last s low
            low' a b,
        run,
      ),
      p,
      q,
    )
