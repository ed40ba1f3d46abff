-- ===== src/Validator/Statistics.antt =====
-- `calStatistics` of state_based_validator.go: the counts of transactions per chaincode, function
-- and validation code.
use eloan_peer.Prelude.{
  ℕ, ◌+◌, ◌%◌, ◌^◌, Option, none, some, List, [], ◌∷◌, ◌++◌, length, get_elem?, set, codes,
}
use eloan_peer.Prelude.GoString.{GoString}
use eloan_peer.Prelude.Assoc.{Assoc, lookup, insert}
use eloan_peer.Version.{Height}
use eloan_peer.StateDb.{NsUpdates}

-- common.TransactionStatistics
pub record TransactionStatistics : Type 0 where
  pub pre_tx_id : GoString
  pub chaincode_id : GoString
  pub func : GoString
  pub validation_code : GoString
  pub tx_sum : ℕ

-- `curBlockStatistics.List`, whose objects `mapTransStatic` points into, by their positions, and the
-- updates of the namespace `qscc`.
pub record Statistics : Type 0 where
  pub list : List TransactionStatistics
  pub trans_static : Assoc ℕ
  pub map_updates : NsUpdates

unfoldable pub trans_static_key : GoString → GoString → GoString → GoString
trans_static_key chaincode_id str_func vcode =
    chaincode_id ++ codes "-" ++ str_func ++ codes "-" ++ vcode

-- The entry of the key: a new one is appended; an old one's last transaction is written down.
unfoldable pub find_statistic : Height → GoString → GoString → Statistics → ℕ × Statistics
find_statistic vh tx_id key s = elim (lookup key s.trans_static) [
  | none ↦ (
    length s.list,
    record s {
      list =
          s.list
          ++ record {
            pre_tx_id = [];
            chaincode_id = [];
            func = [];
            validation_code = [];
            tx_sum = 0;
          }
            ∷ [];
      trans_static = insert key (length s.list) s.trans_static;
    },
  )
  | some i ↦ elim (get_elem? s.list i) [
    | none ↦ (i, s)
    | some t ↦ (
      i,
      record s {
        map_updates =
            insert (tx_id ++ codes "-" ++ key)
              (record { value = some t.pre_tx_id; version = some vh }) s.map_updates;
      },
    )
  ]
]

count_transaction : GoString → GoString → GoString → GoString → ℕ × Statistics → Statistics
count_transaction tx_id chaincode_id str_func vcode (i, s) = elim (get_elem? s.list i) [
  | none ↦ s
  | some t ↦ record s {
    list = set s.list i (record {
      pre_tx_id = tx_id;
      chaincode_id = chaincode_id;
      func = str_func;
      validation_code = vcode;
      tx_sum = (t.tx_sum + 1) % 2 ^ 64;
    });
  }
]

unfoldable pub cal_statistics1 :
    Height → GoString → GoString → GoString → GoString → Statistics → Statistics
unfolding find_statistic count_transaction trans_static_key
cal_statistics1 vh tx_id chaincode_id str_func vcode s =
    count_transaction tx_id chaincode_id str_func vcode
      (find_statistic vh tx_id (trans_static_key chaincode_id str_func vcode) s)

unfoldable pub cal_statistics :
    Option Height → GoString → GoString → GoString → GoString → Statistics → Statistics
unfolding cal_statistics1
cal_statistics none tx_id chaincode_id str_func vcode s = s
cal_statistics (some vh) tx_id chaincode_id str_func vcode s =
    let s1 = cal_statistics1 vh tx_id [] [] [] s in
    let s2 = cal_statistics1 vh tx_id [] [] vcode s1 in
    let s3 = cal_statistics1 vh tx_id chaincode_id [] [] s2 in
    let s4 = cal_statistics1 vh tx_id chaincode_id [] vcode s3 in
    let s5 = cal_statistics1 vh tx_id chaincode_id str_func [] s4 in
    cal_statistics1 vh tx_id chaincode_id str_func vcode s5
