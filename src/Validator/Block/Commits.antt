-- ===== src/Validator/Block/Commits.antt =====
-- Which transactions of a block write to the batch, and which flag they get.
use mathlib.Core.Path.{subst}
use eloan_peer.Prelude.{
  ℕ, ◌%◌, ◌≡◌, refl, inl, inr, false, Option-cases, Option, none, some, Result, ok, ◌>>=◌,
  >>=-eq-ok, set, get_elem?-set_self, arith,
}
use eloan_peer.Prelude.GoString.{GoString, str_eq}
use eloan_peer.Prelude.Assoc.{insert, lookup-insert}
use eloan_peer.Version.{Height, new_height}
use eloan_peer.StateDb.{UpdateBatch, NsUpdates, get, lookup2}
use eloan_peer.Strconv.{format_int}
use eloan_peer.RLists.{RLists}
use eloan_peer.Rwset.{TxRwSet}
use eloan_peer.TxValidationFlags.{TxValidationFlags, set_flag, flag, valid_code}
use eloan_peer.Validator.{add_write_set_to_batch}
use eloan_peer.Validator.Computed.{Calc}
use eloan_peer.Validator.Block.{
  ChannelHeader, Decoders, Checked, Progress, qscc, commit_tx, count_tx, str_func, set_time,
}
use eloan_peer.Validator.Block.Rounds.{count_named, count_round, finish_round, endorser_round}

-- The two batches have the same computed values and lists, and the same plain writes outside the
-- namespace of the statistics.
abbrev pub SameOutside : UpdateBatch → UpdateBatch → Type 0
SameOutside u u' =
    ((ns key : GoString) → str_eq qscc ns ≡ false → get ns key u' ≡ get ns key u)
    × (u'.cals ≡ u.cals)
    × (u'.r_lists ≡ u.r_lists)

flag-set_flag :
    (i c : ℕ) (flags flags' : TxValidationFlags)
    → set_flag i c flags ≡ ok flags'
    → flag i flags' ≡ ok (c % 256)
unfolding set_flag flag
flag-set_flag i c flags flags' e = ground (arith, get_elem?-set_self flags i (c % 256))

get-insert_other :
    (u : UpdateBatch) (v : NsUpdates) (ns key : GoString)
    → str_eq qscc ns ≡ false
    → get ns key (record u { updates = insert qscc v u.updates }) ≡ get ns key u
unfolding get lookup2
get-insert_other u v ns key ne = ground (arith, lookup-insert qscc ns v u.updates)

module _ (lists : RLists) where
  -- Without sets the flag is the code of the checks, and nothing is written; with them the flag is
  -- VALID, and the sets are written at the height of the transaction.
  abbrev pub IsCommitted : ℕ → ℕ → Checked lists → Progress lists → Option TxRwSet → Type 0
  IsCommitted number i r s none =
      (flag i s.flags ≡ ok (r.tx_result % 256)) × SameOutside r.calc.updates s.calc.updates
  IsCommitted number i r s (some set) =
      (flag i s.flags ≡ ok valid_code)
      × (u : UpdateBatch) × (add_write_set_to_batch set (new_height number i) r.calc.updates ≡ ok u)
      × SameOutside u s.calc.updates

  count_tx_lem :
      (vh : Option Height) (tx_id chaincode func vcode : GoString) (s : Progress lists)
      → ((count_tx lists vh tx_id chaincode func vcode s).flags ≡ s.flags)
        × SameOutside s.calc.updates (count_tx lists vh tx_id chaincode func vcode s).calc.updates
  unfolding count_tx
  count_tx_lem vh tx_id chaincode func vcode s =
      (refl, (λ ns key ne. get-insert_other s.calc.updates _ ns key ne, refl, refl))

  module _ (decode : Decoders) (endorse : GoString → Calc lists → Result (Checked lists))
      (number : ℕ) (vh : Option Height) (i : ℕ) (chdr : ChannelHeader) (payload_data : GoString)
      (s s' : Progress lists) where
    Counted : Calc lists → TxValidationFlags → Type 0
    Counted calc flags = (s'.flags ≡ flags) × SameOutside calc.updates s'.calc.updates

    count_named_lem :
        (calc : Calc lists) (flags : TxValidationFlags) (func : GoString) (code : ℕ)
        → count_named lists decode vh i chdr calc flags s func code ≡ ok s'
        → Counted calc flags
    unfolding count_named Counted
    count_named_lem calc flags func code e =
        elim (Option-cases (decode.chaincode_name chdr.extension)) [
          | inl none' ↦ absurd (ground arith)
          | inr (chaincode, e1) ↦
              let q : count_tx lists vh chdr.tx_id chaincode func (format_int code) (record s {
                calc = calc;
                flags = flags;
                block_statistics = set_time i chdr.timestamp s.block_statistics;
              })
                  ≡ s' =
                ground arith in
              subst
                (λ (r : Progress lists).
                  (r.flags ≡ flags) × SameOutside calc.updates r.calc.updates)
                q
                (count_tx_lem vh chdr.tx_id chaincode func (format_int code) (record s {
                  calc = calc;
                  flags = flags;
                  block_statistics = set_time i chdr.timestamp s.block_statistics;
                }))
        ]

    count_round_lem :
        (p : Calc lists × TxValidationFlags)
        → count_round lists decode vh i chdr payload_data p s ≡ ok s'
        → Counted p.0 p.1
    unfolding count_round
    count_round_lem (calc, flags) e =
        let (func, e1, e2) =
          >>=-eq-ok (str_func decode payload_data)
            (λ func. flag i flags >>= count_named lists decode vh i chdr calc flags s func) e in
        let (code, e3, e4) =
          >>=-eq-ok (flag i flags) (count_named lists decode vh i chdr calc flags s func) e2 in
        count_named_lem calc flags func code e4

    commit_lem :
        (r : Checked lists) (o : Option TxRwSet) (flags : TxValidationFlags)
        (p : Calc lists × TxValidationFlags)
        → flag i flags ≡ ok (r.tx_result % 256)
        → commit_tx lists number i r.calc o flags ≡ ok p
        → Counted p.0 p.1
        → IsCommitted number i r s' o
    unfolding commit_tx Counted
    commit_lem r none flags p e e' c =
        let q : p ≡ (r.calc, flags) = ground arith in
        let c' = subst (λ (p' : Calc lists × TxValidationFlags). Counted p'.0 p'.1) q c in
        (rw c'.0 e, c'.1)
    commit_lem r (some set) flags p e e' c =
        let (u, e1, e2) =
          >>=-eq-ok (add_write_set_to_batch set (new_height number i) r.calc.updates)
            (λ u. set_flag i valid_code flags >>= λ f. ok (record r.calc { updates = u }, f)) e' in
        let (f, e3, e4) =
          >>=-eq-ok (set_flag i valid_code flags) (λ f. ok (record r.calc { updates = u }, f)) e2 in
        let q : p ≡ (record r.calc { updates = u }, f) = ground arith in
        let c' = subst (λ (p' : Calc lists × TxValidationFlags). Counted p'.0 p'.1) q c in
        (rw c'.0 (flag-set_flag i valid_code flags f e3), u, e1, c'.1)

    finish_round_lem :
        (r : Checked lists)
        → finish_round lists decode number vh i chdr payload_data s r ≡ ok s'
        → IsCommitted number i r s' r.tx_rw_set
    unfolding finish_round
    finish_round_lem r e =
        let (flags, e1, e2) =
          >>=-eq-ok (set_flag i r.tx_result s.flags)
            (λ flags. commit_tx lists number i r.calc r.tx_rw_set flags >>= λ p.
              count_round lists decode vh i chdr payload_data p s)
            e in
        let (p, e3, e4) =
          >>=-eq-ok (commit_tx lists number i r.calc r.tx_rw_set flags)
            (λ p. count_round lists decode vh i chdr payload_data p s) e2 in
        commit_lem r r.tx_rw_set flags p (flag-set_flag i r.tx_result s.flags flags e1) e3
          (count_round_lem p e4)

    -- A round at an endorser transaction that returns, compared with the batch that its checks leave,
    -- in which they may have put computed values and lists. If the checks give no sets, the flag of
    -- the transaction is the code of the checks, and the round adds nothing to that batch outside the
    -- namespace of the statistics. If they give sets, the flag is VALID, and outside that namespace
    -- the batch is the one that the writing of the sets at the height of the transaction makes of
    -- that batch.
    pub endorser_round-IsCommitted :
        (env_bytes : GoString) (r : Checked lists)
        → endorse env_bytes s.calc ≡ ok r
        → endorser_round lists decode endorse number vh i env_bytes chdr payload_data s ≡ ok s'
        → IsCommitted number i r s' r.tx_rw_set
    unfolding endorser_round
    endorser_round-IsCommitted env_bytes r e e' = finish_round_lem r (ground arith)
