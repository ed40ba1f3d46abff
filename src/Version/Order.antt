-- ===== src/Version/Order.antt =====
-- The comparison of heights in version.go.
use Prim.Native.Nat.{Ordering, compare}
use eloan_peer.Prelude.{
  ◌+◌, ◌≤◌, ◌<◌, ◌≡◌, ◌↔◌, true, Option, none, some, arith, ◌==◌, if◌then◌else◌,
}
use eloan_peer.Version.{Height, two_63, compare_height, are_same, IsUint64}

-- Lexicographic order: the block first, then the transaction.
abbrev pub lexicographic : Height → Height → Ordering
lexicographic h h1 =
    if h.block_num == h1.block_num
    then compare h.tx_num h1.tx_num
    else compare h.block_num h1.block_num

-- Heights whose numbers lie below 2^63 are compared lexicographically.
pub compare_height-lexicographic :
    (h h1 : Height)
    → h.block_num < two_63
    → h.tx_num < two_63
    → h1.block_num < two_63
    → h1.tx_num < two_63
    → compare_height h h1 ≡ lexicographic h h1
unfolding compare_height
compare_height-lexicographic h h1 a b c d = ground arith

-- A height, of uint64 numbers, whose block number is larger by at least 2^63 is reported as
-- smaller.
pub compare_height_wraps :
    (h h1 : Height)
    → IsUint64 h
    → h1.block_num + two_63 ≤ h.block_num
    → (compare_height h h1 ≡ Ordering.lt) × (lexicographic h h1 ≡ Ordering.gt)
unfolding compare_height
compare_height_wraps h h1 fits far = ground arith

are_same-some :
    (h1 h2 : Height) → IsUint64 h1 → IsUint64 h2 → (are_same (some h1) (some h2) ≡ true) ↔ (h1 ≡ h2)
unfolding are_same
are_same-some h1 h2 f1 f2 = (λ e. ground arith, λ e. ground arith)

abbrev pub Fits : Option Height → Type 0
Fits none = Unit
Fits (some h) = IsUint64 h

-- Two heights of uint64 numbers, either of which may be nil, are the same exactly if they are equal.
pub are_same_iff : (o1 o2 : Option Height) → Fits o1 → Fits o2 → (are_same o1 o2 ≡ true) ↔ (o1 ≡ o2)
unfolding are_same
are_same_iff none none f1 f2 = (λ e. ground arith, λ e. ground arith)
are_same_iff none (some h) f1 f2 = (λ e. cc, λ e. cc)
are_same_iff (some h) none f1 f2 = (λ e. cc, λ e. cc)
are_same_iff (some h1) (some h2) f1 f2 =
    (λ e. ground (arith, (are_same-some h1 h2 f1 f2).0 e), λ e. ground arith)
