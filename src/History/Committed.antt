-- ===== src/History/Committed.antt =====
-- What `Commit` of historyleveldb.go leaves in the store: a record for every write of a valid
-- transaction.
use eloan_peer.Prelude.{
  ℕ, zero, suc, ◌+◌, ◌%◌, ◌<◌, ◌≡◌, sym, ap, ◌∙◌, true, false, some, List, [], ◌∷◌, All, All-append,
  length, get_elem?, Result, ok, err, >>=-eq-ok, ◌==◌, Bool-cases, inl, inr, arith,
}
use mathlib.Core.Path.{subst}
use eloan_peer.Prelude.GoString.{GoString}
use eloan_peer.Version.{new_height, two_64}
use eloan_peer.Version.Codec.{VarintCodec, to_bytes}
use eloan_peer.Rwset.{KvWrite, NsRwSet, TxRwSet}
use eloan_peer.Rwset.Codec.{ProtoCodec, from_proto_bytes}
use eloan_peer.StateLevelDb.{Write, LevelDb, save_point_key}
use eloan_peer.StateLevelDb.Stores.{Stores, written}
use eloan_peer.TxValidationFlags.{TxValidationFlags, is_invalid}
use eloan_peer.Validator.Block.{Block, ChannelHeader, Decoders, flags_of}
use eloan_peer.History.{
  construct_composite_history_key, set_history, endorser_history, valid_history, tx_history,
  block_history, batch_of, commit,
}
use eloan_peer.History.Records.{
  Puts, IsRecord, Puts-left, Puts-right, written-Puts, set_history-records, set_history-Puts,
  some-inj, save_point-apart,
}

-- The sets of an endorser transaction, as the history database decodes them.
pub record HasSet (proto : ProtoCodec) (decode : Decoders) (results_of : GoString → Result GoString)
    (env_bytes : GoString) (set : TxRwSet) : Type 0 where
  pub payload : GoString × GoString
  pub payload_read : decode.payload_of env_bytes ≡ ok payload
  pub chdr : ChannelHeader
  pub chdr_read : decode.channel_header payload.0 ≡ ok chdr
  pub is_endorser : (chdr.header_type == decode.endorser_transaction) ≡ true
  pub results : GoString
  pub results_read : results_of env_bytes ≡ ok results
  pub set_read : from_proto_bytes proto results ≡ ok set

pub ok-inj : {A : Type 0} {a b : A} → ok a ≡ ok b → a ≡ b
ok-inj {a = a} e = ap (λ r. elim r [ err x ↦ a | ok x ↦ x ]) e

module _ (codec : VarintCodec) (level : LevelDb) (proto : ProtoCodec) (decode : Decoders)
    (results_of : GoString → Result GoString) where
  valid-records :
      (b t : ℕ) (env : GoString) (ws : List Write)
      → valid_history codec level proto decode results_of b t env ≡ ok ws
      → All IsRecord ws
  unfolding valid_history endorser_history
  valid-records b t env ws e =
      let (p, e1, r1) = >>=-eq-ok (decode.payload_of env) _ e in
      let (chdr, e2, r2) = >>=-eq-ok (decode.channel_header p.0) _ r1 in
      elim (Bool-cases (chdr.header_type == decode.endorser_transaction)) [
        | inl holds ↦
            let (r, e3, r3) = >>=-eq-ok (results_of env) _ (rw holds at r2) in
            let (set, e4, r4) = >>=-eq-ok (from_proto_bytes proto r) _ r3 in
            subst (All IsRecord) (ok-inj r4) (set_history-records codec b t set.ns_rw_sets)
        | inr fails ↦ subst (All IsRecord) (ok-inj (rw fails at r2)) tt
      ]

  tx-records :
      (b t : ℕ) (flags : TxValidationFlags) (env : GoString) (ws : List Write)
      → tx_history codec level proto decode results_of b t flags env ≡ ok ws
      → All IsRecord ws
  unfolding tx_history
  tx-records b t flags env ws e =
      let (invalid, e1, r1) = >>=-eq-ok (is_invalid t flags) _ e in
      elim (Bool-cases invalid) [
        | inl holds ↦ subst (All IsRecord) (ok-inj (rw holds at r1)) tt
        | inr fails ↦ valid-records b t env ws (rw fails at r1)
      ]

  tx-Puts :
      (b t n i : ℕ) (flags : TxValidationFlags) (env : GoString) (set : TxRwSet) (s : NsRwSet)
      (w : KvWrite)
      → is_invalid t flags ≡ ok false
      → HasSet proto decode results_of env set
      → get_elem? set.ns_rw_sets n ≡ some s
      → get_elem? s.kv_rw_set.writes i ≡ some w
      → (ws : List Write) × (tx_history codec level proto decode results_of b t flags env ≡ ok ws)
        × Puts (construct_composite_history_key codec s.name_space w.key b t) ws
  unfolding tx_history valid_history endorser_history
  tx-Puts b t n i flags env set s w valid h e f = (
    set_history codec b t set.ns_rw_sets,
    ground (arith, valid, h.payload_read, h.chdr_read, h.is_endorser, h.results_read, h.set_read),
    set_history-Puts codec b t n i set.ns_rw_sets s w e f,
  )

  block-records :
      (b t : ℕ) (flags : TxValidationFlags) (l : List GoString) (p : List Write × ℕ)
      → block_history codec level proto decode results_of b t flags l ≡ ok p
      → All IsRecord p.0
  unfolding block_history
  block-records b t flags [] p e = subst (λ q. All IsRecord q.0) (ok-inj e) tt
  block-records b t flags (env ∷ l) p e =
      let (ws, e1, r1) =
        >>=-eq-ok (tx_history codec level proto decode results_of b t flags env) _ e in
      let (rest, e2, r2) =
        >>=-eq-ok (block_history codec level proto decode results_of b ((t + 1) % two_64) flags l) _
          r1 in
      subst (λ q. All IsRecord q.0) (ok-inj r2)
        (All-append IsRecord ws rest.0 (tx-records b t flags env ws e1)
          (block-records b ((t + 1) % two_64) flags l rest e2))

  block-Puts :
      (b t n : ℕ) (flags : TxValidationFlags) (l : List GoString) (p : List Write × ℕ)
      (env k : GoString) (ws : List Write)
      → block_history codec level proto decode results_of b t flags l ≡ ok p
      → t + length l < two_64
      → get_elem? l n ≡ some env
      → tx_history codec level proto decode results_of b (t + n) flags env ≡ ok ws
      → Puts k ws
      → Puts k p.0
  unfolding block_history
  block-Puts b t n flags [] p env k ws e fits at tx put = cc
  block-Puts b t zero flags (x ∷ l) p env k ws e fits at tx put =
      let (us, e1, r1) =
        >>=-eq-ok (tx_history codec level proto decode results_of b t flags x) _ e in
      let (rest, e2, r2) =
        >>=-eq-ok (block_history codec level proto decode results_of b ((t + 1) % two_64) flags l) _
          r1 in
      let same : us ≡ ws = ok-inj (
        sym e1
        ∙ ap (tx_history codec level proto decode results_of b t flags) (some-inj at)
        ∙ subst (λ m. tx_history codec level proto decode results_of b m flags env ≡ ok ws)
            (omega arith) tx) in
      subst (λ q. Puts k q.0) (ok-inj r2) (Puts-left rest.0 (subst (Puts k) (sym same) put))
  block-Puts b t (suc n) flags (x ∷ l) p env k ws e fits at tx put =
      let (us, e1, r1) =
        >>=-eq-ok (tx_history codec level proto decode results_of b t flags x) _ e in
      let (rest, e2, r2) =
        >>=-eq-ok (block_history codec level proto decode results_of b ((t + 1) % two_64) flags l) _
          r1 in
      subst (λ q. Puts k q.0) (ok-inj r2)
        (Puts-right us (
          block-Puts b ((t + 1) % two_64) n flags l rest env k ws e2 (omega arith) at
            (subst (λ m. tx_history codec level proto decode results_of b m flags env ≡ ok ws)
              (omega arith) tx)
            put))

-- Every write of a valid endorser transaction of a block has a record in the history database after
-- the block is committed, under the composite key of its namespace, its key, the number of the block
-- and the index of the transaction: on a store that reads what it has written, for a block of fewer
-- than 2^64 transactions whose messages decode.
pub get_entry-commit :
    (codec : VarintCodec) (level : LevelDb) (proto : ProtoCodec) (decode : Decoders)
    (results_of : GoString → Result GoString)
    → Stores level
    → (block block' : Block) (s s' : level.Store)
    → commit codec level proto decode results_of block s ≡ ok (block', s')
    → length block.tx_data < two_64
    → (i : ℕ) (env : GoString) (set : TxRwSet) (n j : ℕ) (ns : NsRwSet) (w : KvWrite)
    → get_elem? block.tx_data i ≡ some env
    → is_invalid i (flags_of block) ≡ ok false
    → HasSet proto decode results_of env set
    → get_elem? set.ns_rw_sets n ≡ some ns
    → get_elem? ns.kv_rw_set.writes j ≡ some w
    → level.get_entry (construct_composite_history_key codec ns.name_space w.key block.number i) s'
      ≡ ok (some [])
unfolding commit batch_of
get_entry-commit codec level proto decode results_of law block block' s s' done fits i env set n j
      ns w at valid h e f =
    let k = construct_composite_history_key codec ns.name_space w.key block.number i in
    let (ws, batch, r1) = >>=-eq-ok (batch_of codec level proto decode results_of block) _ done in
    let (t, wrote, r2) = >>=-eq-ok (level.write_batch ws s) _ r1 in
    let (p, records, r3) =
      >>=-eq-ok
        (block_history codec level proto decode results_of block.number 0 (flags_of block)
          block.tx_data)
        _ batch in
    let (us, tx, put) =
      tx-Puts codec level proto decode results_of block.number i n j (flags_of block) env set ns w
        valid h e f in
    let (o, before) = law.reads k s in
    let all =
      block-records codec level proto decode results_of block.number 0 (flags_of block)
        block.tx_data p records in
    let has =
      block-Puts codec level proto decode results_of block.number 0 i (flags_of block) block.tx_data
        p env k us records (omega arith) at
        (subst
          (λ m.
            tx_history codec level proto decode results_of block.number m (flags_of block) env
            ≡ ok us)
          (omega arith) tx)
        put in
    subst (λ x. level.get_entry k x ≡ ok (some [])) (ap (λ q. q.1) (ok-inj r2))
      (law.get-write k ws s t o wrote before
        ∙ ap ok (
            ap (λ l. written k l o) (sym (ok-inj r3))
            ∙ written-Puts k save_point_key (to_bytes codec (new_height block.number p.1)) o all
                (save_point-apart codec ns.name_space w.key block.number i) has))
