-- ===== src/Ledger/Recovery.antt =====
-- The recovery of `recoverDBs` of kv_ledger.go, for databases that know how many blocks they have.
use eloan_peer.Prelude.{
  ℕ, zero, suc, ◌+◌, ◌-◌, ◌%◌, ◌≤◌, ◌<◌, ◌≡◌, refl, sym, Bool, true, false, not, some, List, [],
  ◌∷◌, ok, ◌==◌, ltb, Bool-cases, inl, inr, arith,
}
use mathlib.Core.Path.{subst}
use eloan_peer.Version.{two_64}
use eloan_peer.Ledger.{
  BlockStore, Recoverable, Target, state_db, history_db, Recoverer, Databases, should_recover_of,
  commit_to, commit_to_each, recoverers_of, after, recommit_lost_blocks, recover_both,
}

-- What a database with the first `k` blocks answers to `ShouldRecover`.
unfoldable pub recover_point : ℕ → ℕ → Bool × ℕ
recover_point zero last = (true, 0)
recover_point (suc n) last = (not (n == last), suc n)

-- A database that keeps up with a chain: `Synced k` holds of a state with its first `k` blocks. It
-- asks for the block that follows, and takes it. A block of the chain has its flags already.
pub record KeepsUp {Block : Type 0} (db : Recoverable Block) (chain : ℕ → Block) (height : ℕ)
    (Synced : ℕ → db.State → Type 0) : Type 0 where
  pub asks :
      (k last : ℕ) (s : db.State)
      → k ≤ height
      → Synced k s
      → db.should_recover last s ≡ ok (recover_point k last)
  pub takes :
      (k : ℕ) (s : db.State)
      → k < height
      → Synced k s
      → (s' : db.State) × (db.commit_lost_block (chain k) s ≡ ok (chain k, s')) × Synced (suc k) s'

positive_of : (i j : ℕ) → i ≤ j → (i == j) ≡ false → (k : ℕ) × (j ≡ suc k)
positive_of i zero low apart = absurd (ground arith)
positive_of i (suc k) low apart = (k, refl)

-- The number before another, of 64 bits.
before_of : (k j : ℕ) → j ≡ suc k → j < two_64 → (j + (two_64 - 1)) % two_64 ≡ k
before_of k j e fits = omega arith

module _ {Block : Type 0} (blocks : BlockStore Block) (txtmgmt history : Recoverable Block)
    (chain : ℕ → Block) (store : blocks.Store) where
  -- One round of the loop leads from a block to the next.
  unfoldable pub Leads : List Target → ℕ → (ℕ → Databases txtmgmt history → Type 0) → Type 0
  Leads rs height P =
      (k : ℕ) (s : Databases txtmgmt history)
      → k < height
      → P k s
      → (s' : Databases txtmgmt history) × (commit_to_each txtmgmt history rs (chain k) s ≡ ok s')
        × P (suc k) s'

  pub recommit-Leads :
      (fuel k last height : ℕ) (rs : List Target) (P : ℕ → Databases txtmgmt history → Type 0)
      (s : Databases txtmgmt history)
      → ((n : ℕ) → n < height → blocks.retrieve_block_by_number n store ≡ ok (chain n))
      → Leads rs height P
      → height < two_64
      → k ≤ suc last
      → suc last ≤ height
      → suc last < fuel + k
      → P k s
      → (s' : Databases txtmgmt history) × (recommit_lost_blocks blocks txtmgmt history fuel k last
            rs store s
          ≡ ok (some s'))
        × P (suc last) s'
  unfolding recommit_lost_blocks Leads
  recommit-Leads zero k last height rs P s get lead fits low high enough p = absurd (omega arith)
  recommit-Leads (suc fuel) k last height rs P s get lead fits low high enough p =
      elim (Bool-cases (ltb last k)) [
        | inl stop ↦ (s, ground arith, subst (λ n. P n s) (ground arith) p)
        | inr go ↦
            let less : k < height = ground arith in
            let (s', step, p') = lead k s less p in
            let (s'', run, q) =
              recommit-Leads fuel (suc k) last height rs P s' get lead fits (ground arith) high
                (omega arith) p' in
            (s'', ground (arith, get k less, step, run), q)
      ]

  -- The one that is further behind is brought to the other, and then both to the end.
  pub recover_both-Leads :
      (fuel last i j : ℕ) (x y : Target) (P Q : ℕ → Databases txtmgmt history → Type 0)
      (s : Databases txtmgmt history)
      → ((n : ℕ) → n < suc last → blocks.retrieve_block_by_number n store ≡ ok (chain n))
      → Leads (x ∷ []) (suc last) P
      → Leads (x ∷ y ∷ []) (suc last) Q
      → suc last < two_64
      → i ≤ j
      → j ≤ last
      → suc last < fuel
      → P i s
      → ((t : Databases txtmgmt history) → P j t → Q j t)
      → (s' : Databases txtmgmt history) × (recover_both blocks txtmgmt history fuel last
            (record { first_block_num = i; recoverable = x })
            (record { first_block_num = j; recoverable = y })
            store
            s
          ≡ ok (some s'))
        × Q (suc last) s'
  unfolding recover_both after
  recover_both-Leads fuel last i j x y P Q s get one both fits low high enough p widen =
      elim (Bool-cases (i == j)) [
        | inl same ↦
            let at : P j s = subst (λ n. P n s) (ground arith) p in
            let (s', run, q) =
              recommit-Leads fuel j last (suc last) (x ∷ y ∷ []) Q s get both fits (omega arith)
                (omega arith) (omega arith) (widen s at) in
            (s', ground (arith, run), q)
        | inr apart ↦
            let positive : (k : ℕ) × (j ≡ suc k) = positive_of i j low apart in
            let k = positive.0 in
            let e = positive.1 in
            let (s', run, q) =
              recommit-Leads fuel i k (suc last) (x ∷ []) P s get one fits (omega arith)
                (omega arith) (omega arith) p in
            let (s'', run', q') =
              recommit-Leads fuel j last (suc last) (x ∷ y ∷ []) Q s' get both fits (omega arith)
                (omega arith) (omega arith) (widen s' (subst (λ n. P n s') (sym e) q)) in
            (s'', ground (arith, run, run', before_of k j e (omega arith)), q')
      ]

recover_point_lem : (k last : ℕ) → recover_point k last ≡ (not (k == suc last), k)
unfolding recover_point
recover_point_lem zero last = ground arith
recover_point_lem (suc n) last = elim (Bool-cases (n == last)) [
  | inl same ↦ ground arith
  | inr apart ↦ ground arith
]

-- A list of recoverers, with another in front where its database lacks blocks.
unfoldable pub behind : Target → ℕ → ℕ → List Recoverer → List Recoverer
behind r k h rest = elim (k == h) [
  | true ↦ rest
  | false ↦ (record { first_block_num = k; recoverable = r }) ∷ rest
]

module _ {Block : Type 0} (blocks : BlockStore Block) (txtmgmt history : Recoverable Block)
    (chain : ℕ → Block) (store : blocks.Store) {A : ℕ → txtmgmt.State → Type 0}
    {B : ℕ → history.State → Type 0} (h : ℕ) (ups : KeepsUp txtmgmt chain h A)
    (downs : KeepsUp history chain h B) where
  pub leads_state :
      (j : ℕ)
      → Leads blocks txtmgmt history chain store
          (state_db ∷ [])
          h
          (λ n s. A n s.txtmgmt_state × B j s.history_state)
  unfolding Leads commit_to_each commit_to
  leads_state j k s less (a, b) =
      let (s', e, a') = ups.takes k s.txtmgmt_state less a in
      (record s { txtmgmt_state = s' }, ground (arith, e), (a', b))

  pub leads_history :
      (i : ℕ)
      → Leads blocks txtmgmt history chain store
          (history_db ∷ [])
          h
          (λ n s. A i s.txtmgmt_state × B n s.history_state)
  unfolding Leads commit_to_each commit_to
  leads_history i k s less (a, b) =
      let (s', e, b') = downs.takes k s.history_state less b in
      (record s { history_state = s' }, ground (arith, e), (a, b'))

  pub leads_both :
      Leads blocks txtmgmt history chain store
        (state_db ∷ history_db ∷ [])
        h
        (λ n s. A n s.txtmgmt_state × B n s.history_state)
  unfolding Leads commit_to_each commit_to
  leads_both k s less (a, b) =
      let (t, e, a') = ups.takes k s.txtmgmt_state less a in
      let (t', e', b') = downs.takes k s.history_state less b in
      (record { txtmgmt_state = t; history_state = t' }, ground (arith, e, e'), (a', b'))

  pub leads_swapped :
      Leads blocks txtmgmt history chain store
        (history_db ∷ state_db ∷ [])
        h
        (λ n s. A n s.txtmgmt_state × B n s.history_state)
  unfolding Leads commit_to_each commit_to
  leads_swapped k s less (a, b) =
      let (t, e, a') = ups.takes k s.txtmgmt_state less a in
      let (t', e', b') = downs.takes k s.history_state less b in
      (record { txtmgmt_state = t; history_state = t' }, ground (arith, e, e'), (a', b'))

  -- The databases that are behind, of two that ask for the blocks `i` and `j`.
  pub recoverers_of_lem :
      (i j last : ℕ) (s : Databases txtmgmt history)
      → i ≤ h
      → j ≤ h
      → A i s.txtmgmt_state
      → B j s.history_state
      → recoverers_of txtmgmt history (state_db ∷ history_db ∷ []) last s
        ≡ ok (behind state_db i (suc last) (behind history_db j (suc last) []))
  unfolding recoverers_of should_recover_of behind
  recoverers_of_lem i j last s low low' a b = ground (
    arith,
    ups.asks i last s.txtmgmt_state low a,
    downs.asks j last s.history_state low' b,
    recover_point_lem i last,
    recover_point_lem j last,
  )
