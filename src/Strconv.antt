-- ===== src/Strconv.antt =====
-- What the program uses of Go's strconv. An int64 is its bit pattern, below 2^64.
pub mod RoundTrip
use eloan_peer.Prelude.{
  ℕ, zero, suc, ◌+◌, ◌-◌, ◌*◌, ◌/◌, ◌%◌, ◌^◌, ◌<◌, Bool, true, false, not, ◌&&◌, ◌||◌, Option, none,
  some, List, [], ◌∷◌, ltb, leb, ◌==◌, if◌then◌else◌,
}
use eloan_peer.Prelude.GoString.{GoString}

abbrev pub u64_mod : ℕ
u64_mod = 2 ^ 64

abbrev pub sign_bit : ℕ
sign_bit = 2 ^ 63

-- The value that is returned, and whether the error is not nil.
pub record Parsed : Type 0 where
  pub value : ℕ
  pub failed : Bool

pub data Scan : Type 0 where
  number : ℕ → Scan
  syntax_error : Scan
  range_error : Scan

-- The loop of `ParseUint` in base ten.
unfoldable pub scan : GoString → ℕ → Scan
scan [] n = number n
scan (c ∷ s) n =
    let rest = scan s (n * 10 + (c - b'0')) in
    if ltb c b'0' || ltb b'9' c
    then syntax_error
    else if leb u64_mod (n * 10 + (c - b'0'))
    then range_error
    else rest

unfoldable pub parse_uint : GoString → Scan
unfolding scan
parse_uint [] = syntax_error
parse_uint (c ∷ s) = scan (c ∷ s) 0

unfoldable pub max_int64 : Parsed
max_int64 = record { value = sign_bit - 1; failed = true }

unfoldable pub min_int64 : Parsed
min_int64 = record { value = sign_bit; failed = true }

unfoldable pub no_syntax : Parsed
no_syntax = record { value = 0; failed = true }

unfoldable pub positive : Scan → Parsed
unfolding max_int64 no_syntax
positive syntax_error = no_syntax
positive range_error = max_int64
positive (number n) = if leb sign_bit n then max_int64 else record { value = n; failed = false }

-- `-n` in two's complement.
unfoldable pub negate : ℕ → ℕ
negate n = (u64_mod - n) % u64_mod

unfoldable pub negative : Scan → Parsed
unfolding min_int64 no_syntax negate
negative syntax_error = no_syntax
negative range_error = min_int64
negative (number n) =
    if ltb sign_bit n then min_int64 else record { value = negate n; failed = false }

-- `strconv.ParseInt(s, 10, 64)`; `strconv.Atoi` has the same values on 64-bit platforms.
unfoldable pub parse_int : GoString → Parsed
unfolding positive negative parse_uint no_syntax
parse_int [] = no_syntax
parse_int (c ∷ s) =
    if c == b'+'
    then positive (parse_uint s)
    else if c == b'-'
    then negative (parse_uint s)
    else positive (parse_uint (c ∷ s))

-- The digits of a number before the text `out`; twenty suffice for a uint64.
unfoldable pub digits : ℕ → ℕ → GoString → GoString
digits zero n out = out
digits (suc fuel) n out =
    let rest = digits fuel (n / 10) ((b'0' + n % 10) ∷ out) in
    if n / 10 == 0 then (b'0' + n % 10) ∷ out else rest

unfoldable pub format_uint : ℕ → GoString
unfolding digits
format_uint n = digits 20 n []

-- `strconv.FormatInt(v, 10)`
unfoldable pub format_int : ℕ → GoString
unfolding format_uint
format_int v = if ltb v sign_bit then format_uint v else b'-' ∷ format_uint (u64_mod - v)

-- int64 addition and multiplication wrap.
unfoldable pub add_int64 : ℕ → ℕ → ℕ
add_int64 a b = (a + b) % u64_mod

unfoldable pub mul_int64 : ℕ → ℕ → ℕ
mul_int64 a b = (a * b) % u64_mod
