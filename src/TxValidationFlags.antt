-- ===== src/TxValidationFlags.antt =====
-- core/ledger/util/txvalidationflags.go: one validation code, a uint8, per transaction of a block.
pub mod Laws
use eloan_peer.Prelude.{
  ℕ, ◌%◌, Bool, not, none, some, List, Error, Result, ok, err, panic, ltb, ◌==◌, if◌then◌else◌,
  length, get_elem?, set, replicate,
}

abbrev pub TxValidationFlags : Type 0
TxValidationFlags = List ℕ

-- peer.TxValidationCode_VALID
abbrev pub valid_code : ℕ
valid_code = 0

unfoldable pub new_tx_validation_flags : ℕ → TxValidationFlags
new_tx_validation_flags size = replicate size 0

-- An index out of range panics.
unfoldable pub set_flag : ℕ → ℕ → TxValidationFlags → Result TxValidationFlags
set_flag tx_index flag obj =
    if ltb tx_index (length obj) then ok (set obj tx_index (flag % 256)) else err panic

unfoldable pub flag : ℕ → TxValidationFlags → Result ℕ
flag tx_index obj = elim (get_elem? obj tx_index) [ none ↦ err panic | some code ↦ ok code ]

unfoldable pub is_set_to : ℕ → ℕ → TxValidationFlags → Result Bool
unfolding flag
is_set_to tx_index code obj = elim (flag tx_index obj) [ err e ↦ err e | ok c ↦ ok (c == code) ]

unfoldable pub is_valid : ℕ → TxValidationFlags → Result Bool
unfolding is_set_to
is_valid tx_index obj = is_set_to tx_index valid_code obj

unfoldable pub is_invalid : ℕ → TxValidationFlags → Result Bool
unfolding is_valid
is_invalid tx_index obj = elim (is_valid tx_index obj) [ err e ↦ err e | ok b ↦ ok (not b) ]
