-- ===== src/TxValidationFlags/Laws.antt =====
-- What the flags of a block answer after one was set.
use eloan_peer.Prelude.{
  ℕ, ◌%◌, ◌<◌, ◌≡◌, ◌≢◌, refl, ok, lt→ltb, ◌==◌, not, length, set, get_elem?-set_self,
  get_elem?-set_ne,
}
use eloan_peer.TxValidationFlags.{
  TxValidationFlags, valid_code, set_flag, flag, is_set_to, is_valid, is_invalid,
}

flag-set_self :
    (i code : ℕ) (obj : TxValidationFlags)
    → i < length obj
    → flag i (set obj i (code % 256)) ≡ ok (code % 256)
unfolding flag
flag-set_self i code obj h = rw (get_elem?-set_self obj i (code % 256) h, flag) refl

is_invalid-set_self :
    (i code : ℕ) (obj : TxValidationFlags)
    → i < length obj
    → is_invalid i (set obj i (code % 256)) ≡ ok (not (code % 256 == valid_code))
unfolding is_invalid is_valid is_set_to
is_invalid-set_self i code obj h =
    rw (flag-set_self i code obj h, is_invalid, is_valid, is_set_to) refl

flag-set_ne :
    (i j code : ℕ) (obj : TxValidationFlags) → i ≢ j → flag j (set obj i code) ≡ flag j obj
unfolding flag
flag-set_ne i j code obj n = rw (get_elem?-set_ne obj i j code n, flag) refl

-- Setting the flag of a transaction of the block succeeds; the code that is then read back is the
-- one that was set, as a uint8, the transaction counts as invalid exactly if that code is not
-- VALID, and every other transaction keeps its code.
pub flag-set_flag :
    (i j code : ℕ) (obj : TxValidationFlags)
    → i < length obj
    → (obj' : TxValidationFlags) × (set_flag i code obj ≡ ok obj')
      × (flag i obj' ≡ ok (code % 256))
      × (is_invalid i obj' ≡ ok (not (code % 256 == valid_code)))
      × (i ≢ j → flag j obj' ≡ flag j obj)
unfolding set_flag
flag-set_flag i j code obj h = (
  set obj i (code % 256),
  rw (lt→ltb i (length obj) h),
  flag-set_self i code obj h,
  is_invalid-set_self i code obj h,
  flag-set_ne i j (code % 256) obj,
)
