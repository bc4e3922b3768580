-- ===== src/Render/Regexp.antt =====
-- The regular expressions of internal/render/render.go, as functions that give the length of the
-- leftmost match at a place, and regexp.ReplaceAllStringFunc over them. No pattern matches the
-- empty text.
use unique_dialect.Base.{
  ℕ, zero, suc, ◌+◌, ◌-◌, Bool, false, not, ◌&&◌, ◌||◌, List, [], ◌∷◌, ◌++◌, Option, none, some,
  leb, ◌==◌, if◌then◌else◌, choose, length, take, drop,
}
use unique_dialect.Text.{Text, codes, has_prefix, to_upper, to_lower, upper_byte, lower_byte}

-- A place is given by the byte before it, if there is one, and the text from it on.
abbrev pub Matcher : Type 0
Matcher = Option ℕ → Text → Option ℕ

-- regexp.ReplaceAllStringFunc; the next `skip` bytes belong to the last match.
unfoldable pub replace_func_from : Matcher → (Text → Text) → ℕ → Option ℕ → Text → Text
replace_func_from m f skip before [] = []
replace_func_from m f (suc skip) before (c ∷ s) = replace_func_from m f skip (some c) s
replace_func_from m f zero before (c ∷ s) =
    let keep = c ∷ replace_func_from m f 0 (some c) s in
    let swap = λ (n : ℕ). f (take n (c ∷ s)) ++ replace_func_from m f (n - 1) (some c) s in
    choose (m before (c ∷ s)) keep swap

unfoldable pub replace_func : Matcher → (Text → Text) → Text → Text
unfolding replace_func_from
replace_func m f s = replace_func_from m f 0 none s

-- The length of the longest prefix whose bytes pass a test.
unfoldable pub span : (ℕ → Bool) → Text → ℕ
span p [] = 0
span p (c ∷ s) = if p c then span p s + 1 else 0

unfoldable pub is_digit : ℕ → Bool
is_digit c = leb b'0' c && leb c b'9'

-- `\s`, which is without the vertical tab.
unfoldable pub is_blank : ℕ → Bool
is_blank c = (leb 9 c && leb c 10) || (leb 12 c && leb c 13) || c == 32

unfoldable pub is_alnum : ℕ → Bool
unfolding is_digit
is_alnum c = is_digit c || (leb b'a' c && leb c b'z') || (leb b'A' c && leb c b'Z')

-- `\w`.
unfoldable pub is_word : ℕ → Bool
unfolding is_alnum
is_word c = is_alnum c || c == b'_'

-- The quoted identifiers, `q[^q]*q`.
unfoldable pub quoted_match : ℕ → Matcher
unfolding span
quoted_match q before [] = none
quoted_match q before (c ∷ s) =
    let n = span (λ d. not (d == q)) s in
    if c == q && leb (n + 1) (length s) then some (n + 2) else none

-- postgresPlaceholderPattern, `\$[0-9]+`.
unfoldable pub placeholder_match : Matcher
unfolding span is_digit
placeholder_match before [] = none
placeholder_match before (c ∷ s) =
    let n = span is_digit s in if c == b'$' && leb 1 n then some (n + 1) else none

-- ilikePattern, `(?i)\s+ILIKE\s+`.
unfoldable pub ilike_match : Matcher
unfolding span is_blank has_prefix upper_byte codes
ilike_match before s =
    let n = span is_blank s in
    let rest = drop n s in
    let m = span is_blank (drop 5 rest) in
    if (leb 1 n && has_prefix (to_upper rest) (codes "ILIKE")) && leb 1 m
    then some (n + 5 + m)
    else none

-- mysqlCharsetLiteralPattern, `(?i)_[a-z0-9]+\s*'`.
unfoldable pub charset_match : Matcher
unfolding span is_alnum is_blank has_prefix
charset_match before [] = none
charset_match before (c ∷ s) =
    let n = span is_alnum s in
    let m = span is_blank (drop n s) in
    if (c == b'_' && leb 1 n) && has_prefix (drop (n + m) s) (39 ∷ [])
    then some (n + m + 2)
    else none

abbrev at_word : Option ℕ → Bool
at_word none = false
at_word (some c) = is_word c

-- The first of some words that is a prefix of a text, in lower case, and followed by `(\d+)`.
unfoldable pub width_match_of : List Text → Text → Option ℕ
unfolding span is_digit has_prefix lower_byte
width_match_of [] s = none
width_match_of (w ∷ ws) s =
    let rest = drop (length w) s in
    let n = span is_digit (drop 1 rest) in
    if ((has_prefix (to_lower s) w && has_prefix rest (b'(' ∷ [])) && leb 1 n)
      && has_prefix (drop (n + 1) rest) (b')' ∷ [])
    then some (length w + n + 2)
    else width_match_of ws s

-- mysqlIntegerWidthPattern, `(?i)\b(tinyint|smallint|mediumint|int|integer|bigint)\(\d+\)`.
unfoldable pub integer_width_match : Matcher
unfolding width_match_of is_word codes
integer_width_match before s =
    let words =
      codes "tinyint"
      ∷ codes "smallint"
      ∷ codes "mediumint"
      ∷ codes "int"
      ∷ codes "integer"
      ∷ codes "bigint"
      ∷ [] in
    if at_word before then none else width_match_of words s

-- mysqlOffsetLimitPattern, `^\s*(\d+)\s*,\s*(\d+)\s*$`, with its two groups.
unfoldable pub offset_limit_match : Text → Option (Text × Text)
unfolding span is_digit is_blank has_prefix
offset_limit_match s0 =
    let s1 = drop (span is_blank s0) s0 in
    let n = span is_digit s1 in
    let s2 = drop n s1 in
    let s3 = drop (span is_blank s2) s2 in
    let s4 = drop 1 s3 in
    let s5 = drop (span is_blank s4) s4 in
    let m = span is_digit s5 in
    let s6 = drop m s5 in
    let s7 = drop (span is_blank s6) s6 in
    if ((leb 1 n && has_prefix s3 (b',' ∷ [])) && leb 1 m) && (length s7 == 0)
    then some (take n s1, take m s5)
    else none
