-- ===== src/Syntax/Scan.antt =====
-- The quote-aware scanner of internal/syntax/syntax.go: trimStatement, splitTopLevelCSV,
-- findTopLevelKeyword, findMatchingParen and stripIdentifier. A result of -1 is `none`.
pub mod Upper
pub mod Keyword
pub mod Paren
pub mod Csv
use unique_dialect.Base.{
  ℕ, ◌+◌, ◌-◌, Bool, true, false, not, ◌&&◌, List, [], ◌∷◌, ◌++◌, Option, none, some, ltb, ◌==◌,
  if◌then◌else◌, length, drop,
}
use unique_dialect.Text.{
  Text, codes, trim_space, trim_suffix, trim_prefix, to_upper, upper_byte, has_prefix,
}

abbrev pub single_quote : ℕ
single_quote = 39

abbrev pub double_quote : ℕ
double_quote = 34

abbrev pub backquote : ℕ
backquote = 96

-- The loop variables of the three scanning loops.
pub record Scan : Type 0 where
  pub depth : ℕ
  pub in_single : Bool
  pub in_double : Bool
  pub in_back : Bool

abbrev pub initial : Scan
initial = record { depth = 0; in_single = false; in_double = false; in_back = false }

-- Outside every quote.
abbrev pub is_plain : Scan → Bool
is_plain s = not s.in_single && not s.in_double && not s.in_back

-- Outside every quote and every parenthesis.
abbrev pub at_top : Scan → Bool
at_top s = is_plain s && s.depth == 0

-- The switch on one byte.
unfoldable pub step : ℕ → Scan → Scan
step c s =
    if c == single_quote
    then (if not s.in_double && not s.in_back then record s { in_single = not s.in_single } else s)
    else if c == double_quote
    then (if not s.in_single && not s.in_back then record s { in_double = not s.in_double } else s)
    else if c == backquote
    then (if not s.in_single && not s.in_double then record s { in_back = not s.in_back } else s)
    else if c == b'('
    then (if is_plain s then record s { depth = s.depth + 1 } else s)
    else if c == b')'
    then (if is_plain s && ltb 0 s.depth then record s { depth = s.depth - 1 } else s)
    else s

-- The loop variables behind a text.
abbrev pub run : Scan → Text → Scan
run s [] = s
run s (c ∷ rest) = run (step c s) rest

unfoldable pub trim_statement : Text → Text
unfolding trim_space trim_suffix
trim_statement sql = trim_space (trim_suffix (trim_space sql) (b';' ∷ []))

-- `cur` is `input[start:index]`.
unfoldable pub split_csv_from : Scan → Text → Text → List Text
unfolding trim_space step
split_csv_from s cur [] = trim_space cur ∷ []
split_csv_from s cur (c ∷ rest) =
    let part = trim_space cur ∷ split_csv_from s [] rest in
    let more = split_csv_from (step c s) (cur ++ c ∷ []) rest in
    if c == b',' && at_top s then part else more

unfoldable pub split_top_level_csv : Text → List Text
unfolding split_csv_from
split_top_level_csv input = split_csv_from initial [] input

-- The loop of findTopLevelKeyword: `upper` is the keyword in upper case, and the input from
-- `index` on is left.
unfoldable pub find_keyword_from : Text → ℕ → Scan → Text → Option ℕ
unfolding step has_prefix upper_byte
find_keyword_from upper index s [] = none
find_keyword_from upper index s (c ∷ rest) =
    let s' = step c s in
    let next = find_keyword_from upper (index + 1) s' rest in
    if ltb (length (c ∷ rest)) (length upper)
    then none
    else if at_top s' && has_prefix (to_upper (c ∷ rest)) upper
    then some index
    else next

unfoldable pub find_top_level_keyword : Text → Text → Option ℕ
unfolding find_keyword_from
find_top_level_keyword input keyword = find_keyword_from (to_upper keyword) 0 initial input

-- The loop of findMatchingParen. The depth is at least 1 before each byte behind the opening
-- one, so that the unguarded `depth--` of the source never goes below 0.
unfoldable pub match_paren_from : ℕ → Scan → Text → Option ℕ
unfolding step
match_paren_from index s [] = none
match_paren_from index s (c ∷ rest) =
    let next = match_paren_from (index + 1) (step c s) rest in
    if (c == b')' && is_plain s) && (s.depth - 1 == 0) then some index else next

abbrev pub opens : Text → Bool
opens [] = false
opens (c ∷ s) = c == b'('

unfoldable pub find_matching_paren : Text → ℕ → Option ℕ
unfolding match_paren_from
find_matching_paren input open_index =
    if opens (drop open_index input)
    then match_paren_from open_index initial (drop open_index input)
    else none

unfoldable pub strip_identifier : Text → Text
unfolding trim_space trim_prefix trim_suffix
strip_identifier input =
    let v0 = trim_space input in
    let v1 = trim_prefix v0 (double_quote ∷ []) in
    let v2 = trim_suffix v1 (double_quote ∷ []) in
    let v3 = trim_prefix v2 (backquote ∷ []) in trim_suffix v3 (backquote ∷ [])
