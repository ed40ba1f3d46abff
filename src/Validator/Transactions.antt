-- ===== src/Validator/Transactions.antt =====
-- Whole transactions: `validateTx` and `validateEndorserTX` of state_based_validator.go.
pub mod Consistency
use eloan_peer.Prelude.{
  ℕ, Bool, Option, none, some, failed, panic, err, true, false, List, [], ◌∷◌, Result, ok, ◌>>=◌,
  if◌then◌else◌,
}
use eloan_peer.Prelude.GoString.{GoString}
use eloan_peer.StateDb.{UpdateBatch}
use eloan_peer.VersionedDb.{VersionedDb}
use eloan_peer.Rwset.{KvRead, KvWrite, NsRwSet, TxRwSet}
use eloan_peer.Rwset.Codec.{ProtoCodec, from_proto_bytes}
use eloan_peer.Rwset.MerkleTree.{Hasher}
use eloan_peer.RLists.{RLists}
use eloan_peer.Validator.{validate_read_set, validate_range_queries}
use eloan_peer.Validator.Computed.{Calc}
use eloan_peer.Validator.Computed.Writes.{cal_write_set}

-- peer.TxValidationCode: the codes that state validation gives.
pub data TxValidationCode : Type 0 where
  valid : TxValidationCode
  nil_txaction : TxValidationCode
  invalid_other_reason : TxValidationCode
  mvcc_read_conflict : TxValidationCode
  phantom_read_conflict : TxValidationCode

module _ (db : VersionedDb) (serialize : List KvRead → Result GoString) (hasher : Hasher) (fuel : ℕ)
    (lists : RLists) (now : ℕ → ℕ) where
  -- The checks of one namespace: its reads, and then its range queries.
  unfoldable pub validate_ns : NsRwSet → UpdateBatch → Result TxValidationCode
  validate_ns set updates = do
    reads_valid ← validate_read_set db set.name_space set.kv_rw_set.reads updates
    elim reads_valid [
      | false ↦ ok mvcc_read_conflict
      | true ↦ (do
        ranges_valid ←
            validate_range_queries db serialize hasher fuel set.name_space
              set.kv_rw_set.range_queries_info updates
        ok (if ranges_valid then valid else phantom_read_conflict))
    ]

  -- The sets of a transaction, with the values that counts were written into, and its code.
  pub record Outcome : Type 0 where
    pub code : TxValidationCode
    pub sets : List NsRwSet
    pub calc : Calc lists

  with_writes : NsRwSet → List KvWrite → NsRwSet
  with_writes set writes = record set { kv_rw_set = record set.kv_rw_set { writes = writes } }

  unfoldable pub validate_sets : List NsRwSet → Calc lists → Result Outcome
  unfolding validate_ns with_writes
  validate_sets [] s = ok (record { code = valid; sets = []; calc = s })
  validate_sets (set ∷ sets) s = do
    code ← validate_ns set s.updates
    elim code [
      | valid ↦ (do
        p ← cal_write_set db lists now set.name_space set.kv_rw_set.writes s
        rest ← validate_sets sets p.1
        ok (record rest { sets = with_writes set p.0 ∷ rest.sets }))
      | conflict ↦ ok (record { code = conflict; sets = set ∷ sets; calc = s })
    ]

  unfoldable pub validate_tx : TxRwSet → Calc lists → Result Outcome
  unfolding validate_sets
  validate_tx tx s = validate_sets tx.ns_rw_sets s

  -- What `validateEndorserTX` returns: the sets of a valid transaction, and the code.
  pub record Endorsed : Type 0 where
    pub tx_rw_set : Option TxRwSet
    pub tx_result : TxValidationCode
    pub calc : Calc lists

  unfoldable pub rejected : TxValidationCode → Calc lists → Result Endorsed
  rejected code s = ok (record { tx_rw_set = none; tx_result = code; calc = s })

  unfoldable pub accepted_as : TxValidationCode → Outcome → Endorsed
  accepted_as valid o = record {
    tx_rw_set = some (record { ns_rw_sets = o.sets });
    tx_result = valid;
    calc = o.calc;
  }
  accepted_as code o = record { tx_rw_set = none; tx_result = code; calc = o.calc }

  unfoldable pub accepted : Outcome → Endorsed
  unfolding accepted_as
  accepted o = accepted_as o.code o

  -- `get_results` is `GetActionFromEnvelope`, a library's, with the results of the action.
  module _ (proto : ProtoCodec) (get_results : GoString → Result GoString)
      (do_mvcc_validation : Bool) where
    unfoldable pub checked : TxRwSet → Calc lists → Result Endorsed
    unfolding validate_tx accepted
    checked tx s =
        if do_mvcc_validation
        then (validate_tx tx s >>= λ o. ok (accepted o))
        else ok (record { tx_rw_set = some tx; tx_result = valid; calc = s })

    unfoldable pub decoded : Result TxRwSet → Calc lists → Result Endorsed
    unfolding rejected checked
    decoded (err panic) s = err panic
    decoded (err (failed text)) s = rejected invalid_other_reason s
    decoded (ok tx) s = checked tx s

    unfoldable pub validate_endorser_tx : GoString → Calc lists → Result Endorsed
    unfolding rejected decoded
    validate_endorser_tx env_bytes s = elim (get_results env_bytes) [
      | err panic ↦ err panic
      | err (failed text) ↦ rejected nil_txaction s
      | ok results ↦ decoded (from_proto_bytes proto results) s
    ]
