-- ===== src/Parser/Specs.antt =====
-- internal/parser/extensions.go: the clauses of ALTER TABLE as texts. Where the source moves an index
-- through a text, the model has what is left of the text.
use unique_dialect.Base.{
  ℕ, zero, suc, ◌+◌, ◌-◌, Bool, true, false, not, ◌&&◌, ◌||◌, List, [], ◌∷◌, ◌++◌, Option, none,
  some, if◌then◌else◌, choose, or_else, ltb, leb, ◌==◌, length, take, drop,
}
use unique_dialect.Text.{
  Text, codes, text_eq, is_empty, trim_left, trim_space, trim_suffix, index_byte, equal_fold,
  lower_byte,
}

-- isIdentifierChar.
unfoldable pub is_identifier_char : ℕ → Bool
is_identifier_char c =
    (c == b'_' || c == b'$')
    || ((leb b'0' c && leb c b'9') || ((leb b'a' c && leb c b'z') || (leb b'A' c && leb c b'Z')))

-- isSQLSpace.
unfoldable pub is_sql_space : ℕ → Bool
is_sql_space c = c == 32 || (c == 9 || (c == 10 || (c == 13 || c == 12)))

abbrev pub skip_spaces : Text → Text
unfolding is_sql_space trim_left
skip_spaces = trim_left is_sql_space

-- What stays behind a quoted identifier, given what stands behind its opening quote.
unfoldable pub behind_quote : ℕ → Text → Option Text
unfolding index_byte
behind_quote q s = choose (index_byte q s) none λ i. some (drop (i + 1) s)

abbrev pub behind_bare : ℕ → Text → Option Text
unfolding is_identifier_char trim_left
behind_bare c s = if is_identifier_char c then some (trim_left is_identifier_char s) else none

-- scanIdentifierAtom: what stays behind an identifier.
unfoldable pub scan_identifier_atom : Text → Option Text
unfolding behind_quote is_identifier_char trim_left
scan_identifier_atom [] = none
scan_identifier_atom (c ∷ s) =
    if c == 96 then behind_quote 96 s else if c == 34 then behind_quote 34 s else behind_bare c s

abbrev pub is_dot : Text → Bool
is_dot [] = false
is_dot (c ∷ s) = c == b'.'

-- The loop of scanQualifiedIdentifier; `none` means that the fuel ran out.
unfoldable pub scan_qualified_fuel : ℕ → Text → Option (Option Text)
unfolding scan_identifier_atom is_sql_space trim_left
scan_qualified_fuel zero s = none
scan_qualified_fuel (suc fuel) s =
    let atom = scan_identifier_atom s in
    choose atom (some none) λ next.
      let rest = scan_qualified_fuel fuel (skip_spaces (drop 1 (skip_spaces next))) in
      if is_dot (skip_spaces next)
      then (if is_empty (skip_spaces (drop 1 (skip_spaces next))) then some none else rest)
      else some (some (skip_spaces next))

unfoldable pub scan_qualified_identifier : Text → Option Text
unfolding scan_qualified_fuel
scan_qualified_identifier s = or_else none (scan_qualified_fuel (suc (length s)) s)

abbrev pub alter_table_word : Text
unfolding codes
alter_table_word = codes "ALTER TABLE"

abbrev pub unless_empty : Text → Option Text
unless_empty [] = none
unless_empty (c ∷ s) = some (c ∷ s)

-- What stays of the trimmed text behind the name of the table.
unfoldable pub behind_table : Text → Option Text
unfolding text_eq lower_byte is_sql_space trim_left scan_qualified_identifier codes
behind_table trimmed =
    if ltb (length trimmed) (length alter_table_word)
      || not (equal_fold (take (length alter_table_word) trimmed) alter_table_word)
    then none
    else choose (unless_empty (skip_spaces (drop (length alter_table_word) trimmed))) none
        λ s. choose (scan_qualified_identifier s) none λ rest. unless_empty (skip_spaces rest)

-- alterTableSpecStart: the index of what stays in the trimmed text, moved on by all that the
-- trimming took off.
unfoldable pub alter_table_spec_start : Text → Option ℕ
unfolding trim_space behind_table
alter_table_spec_start sql =
    choose (behind_table (trim_space sql)) none λ rest.
      some ((length sql - length (trim_space sql)) + (length (trim_space sql) - length rest))

-- The quote that is open, if one is, and the byte before.
pub record SpecScan : Type 0 where
  pub depth : ℕ
  pub quote : Option ℕ
  pub previous : Option ℕ

-- isEscapedQuote.
unfoldable pub is_escaped_quote : ℕ → Option ℕ → Bool
is_escaped_quote quote none = false
is_escaped_quote quote (some p) = quote == 39 && p == 92

abbrev pub opens_quote : ℕ → Bool
opens_quote c = c == 39 || (c == 34 || c == 96)

-- The switch on one byte, outside of a quote and inside.
unfoldable pub scan_outside : ℕ → SpecScan → SpecScan
scan_outside c s =
    if opens_quote c
    then record s { quote = some c; previous = some c }
    else if c == b'('
    then record s { depth = s.depth + 1; previous = some c }
    else if c == b')'
    then record s { depth = s.depth - 1; previous = some c }
    else record s { previous = some c }

unfoldable pub scan_inside : ℕ → ℕ → SpecScan → SpecScan
unfolding is_escaped_quote
scan_inside q c s =
    if c == q && not (is_escaped_quote q s.previous)
    then record s { quote = none; previous = some c }
    else record s { previous = some c }

unfoldable pub scan_byte : ℕ → SpecScan → SpecScan
unfolding scan_outside scan_inside
scan_byte c s = choose s.quote (scan_outside c s) λ q. scan_inside q c s

abbrev pub at_clause_end : ℕ → SpecScan → Bool
at_clause_end c s = (c == b',' && s.depth == 0) && choose s.quote true λ q. false

abbrev pub spec_of : Text → List Text → List Text
unfolding trim_space
spec_of part specs = if is_empty (trim_space part) then specs else trim_space part ∷ specs

-- The loop over the clauses; `cur` is `body[startIndex:i]`.
unfoldable pub split_specs_from : SpecScan → Text → Text → List Text
unfolding scan_byte trim_space
split_specs_from s cur [] = spec_of cur []
split_specs_from s cur (c ∷ rest) =
    let next = spec_of cur (split_specs_from (scan_byte c s) [] rest) in
    let more = split_specs_from (scan_byte c s) (cur ++ c ∷ []) rest in
    if at_clause_end c s then next else more

abbrev pub initial_scan : SpecScan
initial_scan = record { depth = 0; quote = none; previous = none }

abbrev pub unless_none : List Text → Option (List Text)
unless_none [] = none
unless_none (s ∷ ss) = some (s ∷ ss)

-- splitAlterTableSpecClauses.
unfoldable pub split_body : Text → Option (List Text)
unfolding trim_space trim_suffix split_specs_from codes
split_body body0 =
    let body = trim_space (trim_suffix body0 (codes ";")) in
    if is_empty body0 || is_empty body
    then none
    else unless_none (split_specs_from initial_scan [] body)

unfoldable pub split_alter_table_spec_clauses : Text → Option (List Text)
unfolding alter_table_spec_start split_body trim_space
split_alter_table_spec_clauses sql =
    choose (alter_table_spec_start sql) none λ start. split_body (trim_space (drop start sql))
