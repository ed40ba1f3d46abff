-- ===== src/Validator/Transactions/Consistency.antt =====
-- What `validateEndorserTX` returns to the loop over a block.
use mathlib.Core.Path.{subst}
use eloan_peer.Prelude.{
  ℕ, ◌≡◌, ◌↔◌, refl, Bool, true, false, none, some, Result, ok, err, failed, panic, >>=-eq-ok,
  is_some, List, Result-cases, inl, inr,
}
use eloan_peer.Prelude.GoString.{GoString}
use eloan_peer.VersionedDb.{VersionedDb}
use eloan_peer.Rwset.{KvRead, TxRwSet}
use eloan_peer.Rwset.Codec.{ProtoCodec, from_proto_bytes}
use eloan_peer.Rwset.MerkleTree.{Hasher}
use eloan_peer.RLists.{RLists}
use eloan_peer.Validator.Computed.{Calc}
use eloan_peer.Validator.Transactions.{
  TxValidationCode, valid, nil_txaction, invalid_other_reason, mvcc_read_conflict,
  phantom_read_conflict, Outcome, Endorsed, rejected, accepted, accepted_as, checked, decoded,
  validate_tx, validate_endorser_tx,
}

module _ (db : VersionedDb) (serialize : List KvRead → Result GoString) (hasher : Hasher) (fuel : ℕ)
    (lists : RLists) (now : ℕ → ℕ) where
  -- There is a set to write exactly if the code is VALID.
  abbrev pub IsConsistent : Endorsed db serialize hasher fuel lists now → Type 0
  IsConsistent r = (is_some r.tx_rw_set ≡ true) ↔ (r.tx_result ≡ valid)

  accepted_as-IsConsistent :
      (code : TxValidationCode) (o : Outcome db serialize hasher fuel lists now)
      → IsConsistent (accepted_as db serialize hasher fuel lists now code o)
  unfolding accepted_as
  accepted_as-IsConsistent valid o = (λ e. refl, λ e. refl)
  accepted_as-IsConsistent nil_txaction o = (λ e. cc, λ e. cc)
  accepted_as-IsConsistent invalid_other_reason o = (λ e. cc, λ e. cc)
  accepted_as-IsConsistent mvcc_read_conflict o = (λ e. cc, λ e. cc)
  accepted_as-IsConsistent phantom_read_conflict o = (λ e. cc, λ e. cc)

  panic_ok : {r : Endorsed db serialize hasher fuel lists now} → err panic ≡ ok r → ⊥
  panic_ok e = cc

  IsConsistent-ok :
      (r r' : Endorsed db serialize hasher fuel lists now)
      → ok r ≡ ok r'
      → IsConsistent r
      → IsConsistent r'
  IsConsistent-ok r r' e c = let q : r ≡ r' = cc in subst IsConsistent q c

  module _ (proto : ProtoCodec) (get_results : GoString → Result GoString) where
    checked-IsConsistent :
        (do_mvcc_validation : Bool) (tx : TxRwSet) (s : Calc lists)
        (r : Endorsed db serialize hasher fuel lists now)
        → checked db serialize hasher fuel lists now proto get_results do_mvcc_validation tx s
          ≡ ok r
        → IsConsistent r
    unfolding checked accepted
    checked-IsConsistent true tx s r e =
        let (o, p, q) =
          >>=-eq-ok (validate_tx db serialize hasher fuel lists now tx s)
            (λ o. ok (accepted db serialize hasher fuel lists now o)) e in
        IsConsistent-ok (accepted db serialize hasher fuel lists now o) r q
          (accepted_as-IsConsistent o.code o)
    checked-IsConsistent false tx s r e =
        IsConsistent-ok (record { tx_rw_set = some tx; tx_result = valid; calc = s }) r e
          (λ t. refl, λ t. refl)

    decoded-IsConsistent :
        (do_mvcc_validation : Bool) (d : Result TxRwSet) (s : Calc lists)
        (r : Endorsed db serialize hasher fuel lists now)
        → decoded db serialize hasher fuel lists now proto get_results do_mvcc_validation d s ≡ ok r
        → IsConsistent r
    unfolding decoded rejected
    decoded-IsConsistent m (err panic) s r e = cc
    decoded-IsConsistent m (err (failed text)) s r e =
        IsConsistent-ok (record { tx_rw_set = none; tx_result = invalid_other_reason; calc = s }) r
          e (λ t. cc, λ t. cc)
    decoded-IsConsistent m (ok tx) s r e = checked-IsConsistent m tx s r e

    -- Where the validation of an endorser transaction returns, it returns sets to write exactly if
    -- the code is VALID, whether or not the reads were to be checked.
    pub validate_endorser_tx-IsConsistent :
        (do_mvcc_validation : Bool) (env_bytes : GoString) (s : Calc lists)
        (r : Endorsed db serialize hasher fuel lists now)
        → validate_endorser_tx db serialize hasher fuel lists now proto get_results
            do_mvcc_validation env_bytes s
          ≡ ok r
        → IsConsistent r
    unfolding validate_endorser_tx rejected
    validate_endorser_tx-IsConsistent m env_bytes s r e =
        elim (Result-cases (get_results env_bytes)) [
          | inl (results, g) ↦
              decoded-IsConsistent m (from_proto_bytes proto results) s r
                (rw (g, validate_endorser_tx) at e)
          | inr (panic, g) ↦ absurd (panic_ok (rw (g, validate_endorser_tx) at e))
          | inr (failed text, g) ↦
              IsConsistent-ok (record { tx_rw_set = none; tx_result = nil_txaction; calc = s }) r
                (rw (g, validate_endorser_tx) at e) (λ t. cc, λ t. cc)
        ]
