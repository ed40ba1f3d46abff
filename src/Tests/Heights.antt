-- ===== src/Tests/Heights.antt =====
-- Heights and flags.
use Prim.Native.Nat.{Ordering}
use eloan_peer.Prelude.{ℕ, ◌≡◌, ◌≢◌, ◌+◌, ◌^◌, ◌↔◌, true, some, [], ◌∷◌, ok, arith}
use eloan_peer.Version.{Height, compare_height, are_same}
use eloan_peer.Version.Order.{
  lexicographic, compare_height-lexicographic, compare_height_wraps, are_same_iff,
}
use eloan_peer.TxValidationFlags.{TxValidationFlags, set_flag, flag, is_invalid}
use eloan_peer.TxValidationFlags.Laws.{flag-set_flag}
use eloan_peer.Tests.Fixtures.{height_1, height_2, small_1, small_2}

compare_height-lexicographic_example :
    compare_height height_1 height_2 ≡ lexicographic height_1 height_2
compare_height-lexicographic_example =
    compare_height-lexicographic height_1 height_2 (omega arith) (omega arith) (omega arith)
      (omega arith)

abbrev far : Height
far = record { block_num = 2 ^ 63 + 1; tx_num = 0 }

compare_height_wraps_example :
    (compare_height far height_1 ≡ Ordering.lt) × (lexicographic far height_1 ≡ Ordering.gt)
compare_height_wraps_example =
    compare_height_wraps far height_1 (record { block_fits = omega arith; tx_fits = omega arith })
      (omega arith)

are_same_iff_example :
    (are_same (some height_1) (some height_2) ≡ true) ↔ (some height_1 ≡ some height_2)
are_same_iff_example = are_same_iff (some height_1) (some height_2) small_1 small_2

flag-set_flag_example :
    (obj' : TxValidationFlags) × (set_flag 1 11 (0 ∷ 0 ∷ []) ≡ ok obj')
    × (flag 1 obj' ≡ ok 11)
    × (is_invalid 1 obj' ≡ ok true)
    × (◌≢◌ {A = ℕ} 1 0 → flag 0 obj' ≡ flag 0 (0 ∷ 0 ∷ []))
flag-set_flag_example = flag-set_flag 1 0 11 (0 ∷ 0 ∷ []) (omega arith)
