-- ===== src/Version.antt =====
-- core/ledger/kvledger/txmgmt/version/version.go: the height of a transaction.
pub mod Order
pub mod Codec
use Prim.Native.Nat.{Ordering}
use eloan_peer.Prelude.{
  ℕ, ◌+◌, ◌-◌, ◌%◌, ◌^◌, ◌<◌, Bool, true, false, not, ◌&&◌, Option, none, some, ltb, ◌==◌,
  if◌then◌else◌,
}

-- Both fields are uint64.
pub record Height : Type 0 where
  pub block_num : ℕ
  pub tx_num : ℕ

abbrev pub two_64 : ℕ
two_64 = 2 ^ 64

abbrev pub two_63 : ℕ
two_63 = 2 ^ 63

unfoldable pub new_height : ℕ → ℕ → Height
new_height block_num tx_num = record { block_num = block_num; tx_num = tx_num }

-- `int(a - b) > 0`: the uint64 difference wraps, and the conversion reads it as signed.
diff_positive : ℕ → ℕ → Bool
diff_positive a b = let d = (a + two_64 - b) % two_64 in ltb 0 d && ltb d two_63

-- -1, 0 and +1 are `lt`, `eq` and `gt`.
unfoldable pub compare_height : Height → Height → Ordering
unfolding diff_positive
compare_height h h1 =
    if not (h.block_num == h1.block_num)
    then (if diff_positive h.block_num h1.block_num then Ordering.gt else Ordering.lt)
    else if not (h.tx_num == h1.tx_num)
    then (if diff_positive h.tx_num h1.tx_num then Ordering.gt else Ordering.lt)
    else Ordering.eq

abbrev pub is_eq : Ordering → Bool
is_eq Ordering.eq = true
is_eq _ = false

-- A nil pointer is `none`.
unfoldable pub are_same : Option Height → Option Height → Bool
unfolding compare_height
are_same none none = true
are_same none (some h2) = false
are_same (some h1) none = false
are_same (some h1) (some h2) = is_eq (compare_height h1 h2)

-- The fields of a height fit their type.
pub record IsUint64 (h : Height) : Type 0 where
  pub block_fits : h.block_num < two_64
  pub tx_fits : h.tx_num < two_64
