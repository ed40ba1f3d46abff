-- ===== src/Validator/Block/Runes.antt =====
-- Go's conversion of an integer to a string, which is the UTF-8 text of that code point.
use eloan_peer.Prelude.{
  ℕ, ◌+◌, ◌/◌, ◌%◌, ◌<◌, ◌≡◌, arith, ◌&&◌, ◌||◌, [], ◌∷◌, ltb, leb, if◌then◌else◌,
}
use eloan_peer.Prelude.GoString.{GoString}

abbrev pub max_rune : ℕ
max_rune = 1114111

abbrev pub replacement : GoString
replacement = 239 ∷ 191 ∷ 189 ∷ []

-- `string(n)`: numbers that are no code points give the replacement character.
unfoldable pub string_of_rune : ℕ → GoString
string_of_rune n =
    if ltb n 128
    then n ∷ []
    else if ltb n 2048
    then (192 + n / 64) ∷ (128 + n % 64) ∷ []
    else if (leb 55296 n && ltb n 57344) || ltb max_rune n
    then replacement
    else if ltb n 65536
    then (224 + n / 4096) ∷ (128 + n / 64 % 64) ∷ (128 + n % 64) ∷ []
    else (240 + n / 262144) ∷ (128 + n / 4096 % 64) ∷ (128 + n / 64 % 64) ∷ (128 + n % 64) ∷ []

pub string_of_rune_large : (n : ℕ) → max_rune < n → string_of_rune n ≡ replacement
unfolding string_of_rune
string_of_rune_large n h = ground arith
