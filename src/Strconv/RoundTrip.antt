-- ===== src/Strconv/RoundTrip.antt =====
-- `ParseInt` undoes `FormatInt`.

use native.Mathlib.Nat.{pow-succ'}
use eloan_peer.Prelude.{
  ℕ, zero, suc, ◌+◌, ◌-◌, ◌*◌, ◌/◌, ◌%◌, ◌^◌, ◌<◌, ◌≡◌, refl, sym, ◌∙◌, ap, true, false, [], ◌∷◌,
  ltb, ◌==◌, arith, Bool-cases, inl, inr,
}
use eloan_peer.Prelude.GoString.{GoString}
use eloan_peer.Strconv.{
  u64_mod, sign_bit, Scan, number, syntax_error, range_error, max_int64, min_int64, no_syntax, scan,
  parse_uint, parse_int, digits, format_uint, format_int, negate, positive, negative,
}

scan-digit :
    (n d : ℕ) (out : GoString)
    → d < 10
    → n * 10 + d < u64_mod
    → scan ((b'0' + d) ∷ out) n ≡ scan out (n * 10 + d)
unfolding scan
scan-digit n d out h k =
    let e : b'0' + d - b'0' ≡ d = omega arith in ground (arith, ap (λ t. scan out (n * 10 + t)) e)

-- The last digit read.
last_digit :
    (n : ℕ) (out : GoString)
    → n < u64_mod
    → (n / 10 == 0) ≡ true
    → scan ((b'0' + n % 10) ∷ out) 0 ≡ scan out n
last_digit n out k e =
    let q : n / 10 ≡ 0 = ground arith in
    scan-digit 0 (n % 10) out (omega arith) (omega arith) ∙ ap (scan out) (omega arith)

more_digits :
    (n : ℕ) (out : GoString) → n < u64_mod → scan ((b'0' + n % 10) ∷ out) (n / 10) ≡ scan out n
more_digits n out k =
    let e : n / 10 * 10 + n % 10 ≡ n = omega arith in
    scan-digit (n / 10) (n % 10) out (omega arith) (rw e k) ∙ ap (scan out) e

shorter : (fuel n : ℕ) → n < 10 ^ suc fuel → n / 10 < 10 ^ fuel
shorter fuel n h = omega (arith, pow-succ' 10 fuel, h)

one_digit : (n : ℕ) → n < 10 → (n / 10 == 0) ≡ true
one_digit n h = ground arith

-- Reading the digits of a number that has at most `suc fuel` of them.
scan-digits :
    (fuel n : ℕ) (out : GoString)
    → n < 10 ^ suc fuel
    → n < u64_mod
    → scan (digits (suc fuel) n out) 0 ≡ scan out n
unfolding digits
scan-digits zero n out h k =
    let e : (n / 10 == 0) ≡ true = one_digit n h in rw e (last_digit n out k e)
scan-digits (suc fuel) n out h k = elim (Bool-cases (n / 10 == 0)) [
  | inl e ↦ rw e (last_digit n out k e)
  | inr e ↦ rw e (
      scan-digits fuel (n / 10) ((b'0' + n % 10) ∷ out) (shorter (suc fuel) n h) (omega arith)
      ∙ more_digits n out k)
]

-- A text that begins with a digit, and what it is.
record IsDigits (s : GoString) : Type 0 where
  digit : ℕ
  rest : GoString
  small : digit < 10
  shape : s ≡ (b'0' + digit) ∷ rest

digits-IsDigits : (fuel n : ℕ) (out : GoString) → IsDigits (digits (suc fuel) n out)
unfolding digits
digits-IsDigits zero n out = elim (Bool-cases (n / 10 == 0)) [
  | inl e ↦ rw e (record { digit = n % 10; rest = out; small = omega arith; shape = refl })
  | inr e ↦ rw e (record { digit = n % 10; rest = out; small = omega arith; shape = refl })
]
digits-IsDigits (suc fuel) n out = elim (Bool-cases (n / 10 == 0)) [
  | inl e ↦ rw e (record { digit = n % 10; rest = out; small = omega arith; shape = refl })
  | inr e ↦ rw e (digits-IsDigits fuel (n / 10) ((b'0' + n % 10) ∷ out))
]

parse_uint-scan : (s : GoString) → IsDigits s → parse_uint s ≡ scan s 0
unfolding parse_uint
parse_uint-scan s d = rw (d.shape) refl

parse_int-digit :
    (d : ℕ) (rest : GoString)
    → d < 10
    → parse_int ((b'0' + d) ∷ rest) ≡ positive (parse_uint ((b'0' + d) ∷ rest))
unfolding parse_int
parse_int-digit d rest h = ground arith

parse_int-positive :
    (s : GoString) (n : ℕ) → IsDigits s → scan s 0 ≡ number n → parse_int s ≡ positive (number n)
parse_int-positive s n d e =
    ap parse_int d.shape
    ∙ parse_int-digit d.digit d.rest d.small
    ∙ ap (λ t. positive (parse_uint t)) (sym d.shape)
    ∙ ap positive (parse_uint-scan s d ∙ e)

parse_int-negative :
    (s : GoString) (n : ℕ)
    → IsDigits s
    → scan s 0 ≡ number n
    → parse_int (b'-' ∷ s) ≡ negative (number n)
unfolding parse_int
parse_int-negative s n d e = ap negative (parse_uint-scan s d ∙ e)

format_uint-number : (n : ℕ) → n < u64_mod → scan (format_uint n) 0 ≡ number n
unfolding format_uint
format_uint-number n h = scan-digits 19 n [] (omega (arith, h)) h ∙ unfold scan in refl

format_uint-IsDigits : (n : ℕ) → IsDigits (format_uint n)
unfolding format_uint
format_uint-IsDigits n = digits-IsDigits 19 n []

-- What `ParseInt` reads of a printed int64 is that int64, without an error.
pub parse_int-format_int :
    (v : ℕ) → v < u64_mod → parse_int (format_int v) ≡ record { value = v; failed = false }
unfolding format_int positive negative negate
parse_int-format_int v h = elim (Bool-cases (ltb v sign_bit)) [
  | inl e ↦ rw e (
      parse_int-positive (format_uint v) v (format_uint-IsDigits v) (format_uint-number v h)
      ∙ ground arith)
  | inr e ↦ rw e (
      parse_int-negative (format_uint (u64_mod - v)) (u64_mod - v)
        (format_uint-IsDigits (u64_mod - v)) (format_uint-number (u64_mod - v) (ground arith))
      ∙ ground arith)
]

positive_bounded : (r : Scan) → (positive r).value < u64_mod
unfolding positive max_int64 no_syntax
positive_bounded syntax_error = omega arith
positive_bounded range_error = omega arith
positive_bounded (number n) = ground arith

negative_bounded : (r : Scan) → (negative r).value < u64_mod
unfolding negative min_int64 no_syntax negate
negative_bounded syntax_error = omega arith
negative_bounded range_error = omega arith
negative_bounded (number n) = ground arith

-- `ParseInt` returns an int64, with an error or without.
pub parse_int_bounded : (s : GoString) → (parse_int s).value < u64_mod
unfolding parse_int no_syntax
parse_int_bounded [] = omega arith
parse_int_bounded (c ∷ s) = ground (
  arith,
  positive_bounded (parse_uint s),
  negative_bounded (parse_uint s),
  positive_bounded (parse_uint (c ∷ s)),
)
