-- ===== src/Validator/Block/Flags.antt =====
-- What the loop over a block does to the flags of its transactions.
use eloan_peer.Prelude.{
  ℕ, suc, ◌%◌, ◌≡◌, ◌≢◌, ◌∙◌, inl, inr, true, false, Bool-cases, Result-cases, Option-cases, Option,
  none, some, List, [], ◌∷◌, Result, ok, ◌>>=◌, >>=-eq-ok, ◌==◌, set, get_elem?-set_ne, arith,
}
use native.Mathlib.Decide.{ℕ_discrete}
use eloan_peer.Prelude.GoString.{GoString}
use eloan_peer.Version.{Height}
use eloan_peer.VersionedDb.{VersionedDb, or_nil}
use eloan_peer.RLists.{RLists}
use eloan_peer.Rwset.{TxRwSet}
use eloan_peer.TxValidationFlags.{
  TxValidationFlags, set_flag, flag, is_set_to, is_valid, is_invalid, valid_code,
}
use eloan_peer.Validator.Computed.{Calc}
use eloan_peer.Validator.{add_write_set_to_batch}
use eloan_peer.Version.{new_height}
use eloan_peer.Validator.Moves.{move_cals_to_update}
use eloan_peer.Validator.Block.{
  Block, ChannelHeader, BlockStatistics, Decoders, Checked, Progress, flags_of, commit_tx, count_tx,
  str_func, begin_block, finish_block, current_statistics,
}
use eloan_peer.Validator.Block.Rounds.{
  count_named, count_round, finish_round, typed_round, open_round, endorser_round, tx_round,
  tx_rounds, validate_block, run_block,
}

-- A flag that is set leaves the others.
set_flag_other :
    (i j c : ℕ) (flags flags' : TxValidationFlags)
    → i ≢ j
    → set_flag i c flags ≡ ok flags'
    → flag j flags' ≡ flag j flags
unfolding set_flag flag
set_flag_other i j c flags flags' ne e = ground (arith, get_elem?-set_ne flags i j (c % 256) ne)

-- What a committer marked: a code other than VALID.
abbrev pub IsMarked : ℕ → ℕ → TxValidationFlags → Type 0
IsMarked j c flags = (flag j flags ≡ ok c) × (c ≢ valid_code)

marked_invalid :
    (j c : ℕ) (flags : TxValidationFlags) → IsMarked j c flags → is_invalid j flags ≡ ok true
unfolding is_invalid is_valid is_set_to
marked_invalid j c flags h = ground (arith, h.0, h.1)

module _ (lists : RLists) where
  commit_tx_other :
      (number i j : ℕ) (calc : Calc lists) (o : Option TxRwSet) (flags : TxValidationFlags)
      (p : Calc lists × TxValidationFlags)
      → i ≢ j
      → commit_tx lists number i calc o flags ≡ ok p
      → flag j p.1 ≡ flag j flags
  unfolding commit_tx
  commit_tx_other number i j calc none flags p ne e = ground arith
  commit_tx_other number i j calc (some set) flags p ne e =
      let (u, e1, e2) =
        >>=-eq-ok (add_write_set_to_batch set (new_height number i) calc.updates)
          (λ u. set_flag i valid_code flags >>= λ f. ok (record calc { updates = u }, f)) e in
      let (f, e3, e4) =
        >>=-eq-ok (set_flag i valid_code flags) (λ f. ok (record calc { updates = u }, f)) e2 in
      ground (arith, set_flag_other i j valid_code flags f ne e3)

  module _ (decode : Decoders) (endorse : GoString → Calc lists → Result (Checked lists)) where
    module _ (number : ℕ) (vh : Option Height) (i : ℕ) (chdr : ChannelHeader)
        (payload_data : GoString) (s s' : Progress lists) where
      count_round_flags :
          (p : Calc lists × TxValidationFlags)
          → count_round lists decode vh i chdr payload_data p s ≡ ok s'
          → s'.flags ≡ p.1
      unfolding count_round count_named count_tx
      count_round_flags (calc, flags) e = ground (
        arith,
        Result-cases (str_func decode payload_data),
        Result-cases (flag i flags),
        Option-cases (decode.chaincode_name chdr.extension),
      )

      finish_round_other :
          (j : ℕ) (r : Checked lists)
          → i ≢ j
          → finish_round lists decode number vh i chdr payload_data s r ≡ ok s'
          → flag j s'.flags ≡ flag j s.flags
      unfolding finish_round
      finish_round_other j r ne e =
          let (flags, e1, e2) =
            >>=-eq-ok (set_flag i r.tx_result s.flags)
              (λ flags. commit_tx lists number i r.calc r.tx_rw_set flags >>= λ p.
                count_round lists decode vh i chdr payload_data p s)
              e in
          let (p, e3, e4) =
            >>=-eq-ok (commit_tx lists number i r.calc r.tx_rw_set flags)
              (λ p. count_round lists decode vh i chdr payload_data p s) e2 in
          ground (
            arith,
            count_round_flags p e4,
            commit_tx_other number i j r.calc r.tx_rw_set flags p ne e3,
            set_flag_other i j r.tx_result s.flags flags ne e1,
          )

    module _ (number : ℕ) (vh : Option Height) (i : ℕ) (env : GoString) where
      endorser_round_other :
          (j : ℕ) (chdr : ChannelHeader) (payload_data : GoString) (s s' : Progress lists)
          → i ≢ j
          → endorser_round lists decode endorse number vh i env chdr payload_data s ≡ ok s'
          → flag j s'.flags ≡ flag j s.flags
      unfolding endorser_round
      endorser_round_other j chdr payload_data s s' ne e =
          let (r, e1, e2) =
            >>=-eq-ok (endorse env s.calc)
              (finish_round lists decode number vh i chdr payload_data s) e in
          finish_round_other number vh i chdr payload_data s s' j r ne e2

      typed_round_other :
          (j : ℕ) (chdr : ChannelHeader) (payload_data : GoString) (s s' : Progress lists)
          → i ≢ j
          → typed_round lists decode endorse number vh i env payload_data s chdr ≡ ok s'
          → flag j s'.flags ≡ flag j s.flags
      unfolding typed_round
      typed_round_other j chdr payload_data s s' ne e =
          elim (Bool-cases (chdr.header_type == decode.endorser_transaction)) [
            | inl same ↦ endorser_round_other j chdr payload_data s s' ne (ground arith)
            | inr other ↦ ground arith
          ]

      open_round_other :
          (j : ℕ) (s s' : Progress lists)
          → i ≢ j
          → open_round lists decode endorse number vh i env s ≡ ok s'
          → flag j s'.flags ≡ flag j s.flags
      unfolding open_round
      open_round_other j s s' ne e =
          let (p, e1, e2) =
            >>=-eq-ok (decode.payload_of env)
              (λ p. decode.channel_header p.0 >>= λ chdr.
                typed_round lists decode endorse number vh i env p.1 s chdr)
              e in
          let (chdr, e3, e4) =
            >>=-eq-ok (decode.channel_header p.0)
              (typed_round lists decode endorse number vh i env p.1 s) e2 in
          typed_round_other j chdr p.1 s s' ne e4

      -- A round keeps every flag that is marked.
      tx_round_marked :
          (j c : ℕ) (s s' : Progress lists)
          → IsMarked j c s.flags
          → tx_round lists decode endorse number vh i env s ≡ ok s'
          → flag j s'.flags ≡ ok c
      unfolding tx_round
      tx_round_marked j c s s' h e = elim (ℕ_discrete i j) [
        | yes same ↦ ground (arith, marked_invalid j c s.flags h, h.0)
        | no ne ↦ elim (Result-cases (is_invalid i s.flags)) [
          | inl (true, e1) ↦ ground (arith, h.0)
          | inl (false, e1) ↦ open_round_other j s s' ne (ground arith) ∙ h.0
          | inr (x, e1) ↦ absurd (ground arith)
        ]
      ]

    tx_rounds_marked :
        (number : ℕ) (vh : Option Height) (i : ℕ) (l : List GoString) (j c : ℕ)
        (s s' : Progress lists)
        → IsMarked j c s.flags
        → tx_rounds lists decode endorse number vh i l s ≡ ok s'
        → flag j s'.flags ≡ ok c
    unfolding tx_rounds
    tx_rounds_marked number vh i [] j c s s' h e = ground (arith, h.0)
    tx_rounds_marked number vh i (env ∷ l) j c s s' h e =
        let (s1, e1, e2) =
          >>=-eq-ok (tx_round lists decode endorse number vh i env s)
            (tx_rounds lists decode endorse number vh (suc i) l) e in
        tx_rounds_marked number vh (suc i) l j c s1 s'
          (tx_round_marked number vh i env j c s s1 h e1, h.1) e2

    finish_block_flags :
        (db : VersionedDb) (vh : Option Height) (s s' : Progress lists)
        → finish_block db lists decode vh s ≡ ok s'
        → s'.flags ≡ s.flags
    unfolding finish_block
    finish_block_flags db vh s s' e = elim (Result-cases (move_cals_to_update db lists s.calc)) [
      | inl (moved, e1) ↦ ground arith
      | inr (x, e1) ↦ absurd (ground arith)
    ]

    -- A transaction that the committer has marked with a code other than VALID keeps that code
    -- through the validation of its block, where that returns.
    pub validate_block-flag :
        (db : VersionedDb) (memory : Option BlockStatistics) (block : Block) (calc : Calc lists)
        (s : Progress lists) (j c : ℕ)
        → flag j (flags_of block) ≡ ok c
        → c ≢ valid_code
        → validate_block db lists decode endorse memory block calc ≡ ok s
        → flag j s.flags ≡ ok c
    unfolding validate_block run_block begin_block
    validate_block-flag db memory block calc s j c marked ne e =
        let (b, e1, e2) =
          >>=-eq-ok (current_statistics db decode memory)
            (λ b.
              or_nil db.get_latest_save_point >>= run_block db lists decode endorse block calc b)
            e in
        let (vh, e3, e4) =
          >>=-eq-ok (or_nil db.get_latest_save_point)
            (run_block db lists decode endorse block calc b) e2 in
        let (s1, e5, e6) =
          >>=-eq-ok
            (tx_rounds lists decode endorse block.number vh 0 block.tx_data
              (begin_block lists block calc b))
            (finish_block db lists decode vh) e4 in
        rw (finish_block_flags db vh s1 s e6) (
          tx_rounds_marked block.number vh 0 block.tx_data j c (begin_block lists block calc b) s1
            (marked, ne) e5)
