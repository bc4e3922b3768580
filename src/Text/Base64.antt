-- ===== src/Text/Base64.antt =====
-- RawStdEncoding of the package encoding/base64, on lists of bytes.
pub mod RoundTrip
use unique_dialect.Base.{
  ℕ, ◌+◌, ◌-◌, ◌*◌, ◌/◌, ◌%◌, Bool, ◌&&◌, ◌||◌, List, [], ◌∷◌, Option, none, some, ltb, leb, ◌==◌,
  if◌then◌else◌, choose,
}
use unique_dialect.Text.{Text}

-- The letters, the digits, `+` and `/`.
unfoldable pub symbol : ℕ → ℕ
symbol n =
    if ltb n 26
    then n + 65
    else if ltb n 52
    then n + 71
    else if ltb n 62
    then n - 4
    else if n == 62
    then 43
    else 47

unfoldable pub symbol_value : ℕ → Option ℕ
symbol_value c =
    if leb 65 c && leb c 90
    then some (c - 65)
    else if leb 97 c && leb c 122
    then some (c - 71)
    else if leb 48 c && leb c 57
    then some (c + 4)
    else if c == 43
    then some 62
    else if c == 47
    then some 63
    else none

unfoldable pub encode_to_string : Text → Text
unfolding symbol
encode_to_string [] = []
encode_to_string (a ∷ []) = symbol (a / 4) ∷ symbol (a % 4 * 16) ∷ []
encode_to_string (a ∷ b ∷ []) =
    symbol (a / 4) ∷ symbol (a % 4 * 16 + b / 16) ∷ symbol (b % 16 * 4) ∷ []
encode_to_string (a ∷ b ∷ c ∷ s) =
    symbol (a / 4)
    ∷ symbol (a % 4 * 16 + b / 16)
    ∷ symbol (b % 16 * 4 + c / 64)
    ∷ symbol (c % 64)
    ∷ encode_to_string s

-- The line ends, which the decoder passes over, taken out.
unfoldable pub without_line_ends : Text → Text
without_line_ends [] = []
without_line_ends (c ∷ s) =
    let rest = without_line_ends s in if c == 10 || c == 13 then rest else c ∷ rest

unfoldable pub symbol_values : Text → Option (List ℕ)
unfolding symbol_value
symbol_values [] = some []
symbol_values (c ∷ s) =
    choose (symbol_value c) none λ n. choose (symbol_values s) none λ ns. some (n ∷ ns)

-- The bytes of groups of four values; the bits that are left over are dropped.
unfoldable pub grouped : List ℕ → Option Text
grouped [] = some []
grouped (w ∷ []) = none
grouped (w ∷ x ∷ []) = some ((w * 4 + x / 16) ∷ [])
grouped (w ∷ x ∷ y ∷ []) = some ((w * 4 + x / 16) ∷ (x % 16 * 16 + y / 4) ∷ [])
grouped (w ∷ x ∷ y ∷ z ∷ s) =
    choose (grouped s) none
      λ rest. some ((w * 4 + x / 16) ∷ (x % 16 * 16 + y / 4) ∷ (y % 4 * 64 + z) ∷ rest)

unfoldable pub decode_string : Text → Option Text
unfolding without_line_ends symbol_values grouped
decode_string s = choose (symbol_values (without_line_ends s)) none λ ns. grouped ns
