-- ===== src/Syntax/Postgres.antt =====
-- internal/syntax/postgres/parser.go
pub mod Joins
pub mod Safe
use unique_dialect.Base.{ℕ, ◌+◌, List, [], ◌∷◌, Option, none, some, if◌then◌else◌, choose, length}
use unique_dialect.Outcome.{
  Outcome, ok, err, ◌>>=◌, invalid_insert_columns, invalid_insert_values, invalid_conflict_target,
  unsupported_conflict_action,
}
use unique_dialect.Syntax.Clauses
use unique_dialect.Syntax.Clauses.{
  find, normalize_identifiers, parse_assignments, parse_update, parse_delete, starts,
}
use unique_dialect.Syntax.Postgres.Joins.{parse_from_and_joins}
use unique_dialect.Syntax.Scan.{find_top_level_keyword, split_top_level_csv, find_matching_paren}
use unique_dialect.Syntax.{
  LimitClause, Assignment, ConflictClause, postgres_style, InsertStatement, Statement, raw, insert,
}
use unique_dialect.Text.Decimal.{atoi}
use unique_dialect.Text.{
  Text, codes, to_upper, trim_space, trim_suffix, is_empty, has_prefix, upper_byte, index_byte,
  slice,
}

-- The first place of a text in another: strings.Index.
unfoldable pub index_of : Text → Text → Option ℕ
unfolding has_prefix
index_of pattern [] = none
index_of pattern (c ∷ s) =
    if has_prefix (c ∷ s) pattern
    then some 0
    else choose (index_of pattern s) none λ i. some (i + 1)

-- The place of ` OFFSET ` is looked for in the trimmed text, and used in the text as it is.
unfoldable pub parse_limit : Text → Outcome LimitClause
unfolding index_of atoi slice trim_space upper_byte codes
parse_limit input =
    let both = λ (i : ℕ). (do
      count_text ← slice input 0 i
      count ← atoi (trim_space count_text)
      offset_text ← slice input (i + length (codes " OFFSET ")) (length input)
      offset ← atoi (trim_space offset_text)
      ok (record { offset = some offset; count = count })) in
    let whole = (do
      count ← atoi (trim_space input)
      ok (record { offset = none; count = count })) in
    choose (index_of (codes " OFFSET ") (to_upper (trim_space input))) whole both

unfoldable pub parse_select : Text → Outcome Statement
unfolding Clauses.parse_select parse_from_and_joins parse_limit
parse_select = Clauses.parse_select parse_from_and_joins parse_limit

-- The action of ON CONFLICT behind its target.
unfoldable pub parse_conflict_action : List Text → Text → Outcome (Option ConflictClause)
unfolding starts parse_assignments slice codes
parse_conflict_action targets after =
    let action = (do
      tail ← slice after (length (codes "DO UPDATE SET ")) (length after)
      assignments ← parse_assignments tail
      ok (
          some (record {
            style = postgres_style;
            target_columns = targets;
            assignments = assignments;
          }))) in
    if starts after (codes "DO UPDATE SET ") then action else err unsupported_conflict_action

unfoldable pub parse_conflict_target : Text → Outcome (Option ConflictClause)
unfolding index_byte find_matching_paren slice parse_conflict_action normalize_identifiers
    split_top_level_csv
parse_conflict_target body =
    let list = λ (left right : ℕ). (do
      targets ← slice body (left + 1) right
      after ← slice body (right + 1) (length body)
      parse_conflict_action (normalize_identifiers (split_top_level_csv targets))
          (trim_space after)) in
    choose (index_byte b'(' body) (err invalid_conflict_target)
      λ left. choose (find_matching_paren body left) (err invalid_conflict_target) (list left)

-- What stands behind the value list: an ON CONFLICT clause, or text that is dropped.
unfoldable pub parse_upsert : Text → Outcome (Option ConflictClause)
unfolding starts parse_conflict_target slice codes
parse_upsert rest =
    let conflict = (do
      tail ← slice rest (length (codes "ON CONFLICT ")) (length rest)
      parse_conflict_target (trim_space tail)) in
    if is_empty rest
    then ok none
    else if starts rest (codes "ON CONFLICT ")
    then conflict
    else ok none

-- parseInsert behind `VALUES`.
unfoldable pub parse_values : Text → List Text → Text → Outcome Statement
unfolding index_byte find_matching_paren slice split_top_level_csv parse_upsert
parse_values table columns values_body =
    let list = λ (left right : ℕ). (do
      values ← slice values_body (left + 1) right
      rest ← slice values_body (right + 1) (length values_body)
      conflict ← parse_upsert (trim_space rest)
      ok (
          insert (record {
            table = table;
            columns = columns;
            values = split_top_level_csv values;
            conflict = conflict;
          }))) in
    choose (index_byte b'(' values_body) (err invalid_insert_values)
      λ left. choose (find_matching_paren values_body left) (err invalid_insert_values) (list left)

-- parseInsert behind the column list.
unfoldable pub parse_behind_columns : Text → Text → List Text → Text → Outcome Statement
unfolding find_top_level_keyword slice parse_values codes
parse_behind_columns sql table columns after =
    choose (find (to_upper after) (codes "VALUES")) (ok (raw sql)) λ v. (do
      tail ← slice after (v + length (codes "VALUES")) (length after)
      parse_values table columns (trim_space tail))

unfoldable pub parse_insert : Text → Outcome Statement
unfolding index_byte find_matching_paren slice split_top_level_csv parse_behind_columns
parse_insert sql = do
  tail ← slice sql (length (codes "INSERT INTO ")) (length sql)
  let body = trim_space tail
  let list = λ (left right : ℕ). do
    table ← slice body 0 left
    columns ← slice body (left + 1) right
    after ← slice body (right + 1) (length body)
    parse_behind_columns sql (trim_space table)
        (normalize_identifiers (split_top_level_csv columns)) (trim_space after)
  choose (index_byte b'(' body) (ok (raw sql))
      λ left. choose (find_matching_paren body left) (err invalid_insert_columns) (list left)

-- The text with its surrounding space and one semicolon taken off.
unfoldable pub syntax_trim : Text → Text
unfolding trim_space trim_suffix codes
syntax_trim sql = trim_space (trim_suffix (trim_space sql) (codes ";"))

unfoldable pub parse : Text → Outcome Statement
unfolding syntax_trim starts parse_select parse_insert parse_update parse_delete codes
parse sql0 =
    let sql = trim_space sql0 in
    let trimmed = syntax_trim sql in
    if starts trimmed (codes "SELECT ")
    then parse_select trimmed
    else if starts trimmed (codes "INSERT INTO ")
    then parse_insert trimmed
    else if starts trimmed (codes "UPDATE ")
    then parse_update trimmed
    else if starts trimmed (codes "DELETE FROM ")
    then parse_delete trimmed
    else ok (raw sql)
