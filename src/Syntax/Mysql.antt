-- ===== src/Syntax/Mysql.antt =====
-- internal/syntax/mysql/parser.go
pub mod Joins
pub mod Safe
use unique_dialect.Base.{ℕ, ◌+◌, List, [], ◌∷◌, Option, none, some, if◌then◌else◌, choose, length}
use unique_dialect.Outcome.{
  Outcome, ok, err, ◌>>=◌, invalid_limit_clause, invalid_insert_columns, invalid_insert_values,
}
use unique_dialect.Syntax.Clauses
use unique_dialect.Syntax.Clauses.{
  find, normalize_identifiers, parse_assignments, parse_update, parse_delete, starts,
}
use unique_dialect.Syntax.Mysql.Joins.{parse_from_and_joins}
use unique_dialect.Syntax.Scan.{find_top_level_keyword, split_top_level_csv, find_matching_paren}
use unique_dialect.Syntax.{
  LimitClause, Assignment, ConflictClause, mysql_style, InsertStatement, Statement, raw, insert,
}
use unique_dialect.Text.Decimal.{atoi}
use unique_dialect.Text.{
  Text, codes, trim_space, trim_suffix, is_empty, has_prefix, upper_byte, index_byte, slice,
}

unfoldable pub parse_limit_parts : List Text → Outcome LimitClause
unfolding atoi trim_space
parse_limit_parts (c ∷ []) = do
  count ← atoi (trim_space c)
  ok (record { offset = none; count = count })
parse_limit_parts (o ∷ c ∷ []) = do
  offset ← atoi (trim_space o)
  count ← atoi (trim_space c)
  ok (record { offset = some offset; count = count })
parse_limit_parts _ = err invalid_limit_clause

unfoldable pub parse_limit : Text → Outcome LimitClause
unfolding parse_limit_parts split_top_level_csv
parse_limit input = parse_limit_parts (split_top_level_csv (trim_space input))

unfoldable pub parse_select : Text → Outcome Statement
unfolding Clauses.parse_select parse_from_and_joins parse_limit
parse_select = Clauses.parse_select parse_from_and_joins parse_limit

-- The first of the columns, if there is one.
abbrev pub first_column : List Text → List Text
first_column [] = []
first_column (c ∷ cs) = c ∷ []

-- What stands behind the value list: an upsert, or text that is dropped.
unfoldable pub parse_upsert : List Text → Text → Outcome (Option ConflictClause)
unfolding starts parse_assignments slice codes
parse_upsert columns rest =
    let upsert = (do
      tail ← slice rest (length (codes "ON DUPLICATE KEY UPDATE ")) (length rest)
      assignments ← parse_assignments tail
      ok (
          some (record {
            style = mysql_style;
            target_columns = first_column columns;
            assignments = assignments;
          }))) in
    if is_empty rest
    then ok none
    else if starts rest (codes "ON DUPLICATE KEY UPDATE ")
    then upsert
    else ok none

-- parseInsert behind `VALUES`.
unfoldable pub parse_values : Text → List Text → Text → Outcome Statement
unfolding index_byte find_matching_paren slice split_top_level_csv parse_upsert
parse_values table columns values_body =
    let list = λ (left right : ℕ). (do
      values ← slice values_body (left + 1) right
      rest ← slice values_body (right + 1) (length values_body)
      conflict ← parse_upsert columns (trim_space rest)
      ok (
          insert (record {
            table = table;
            columns = columns;
            values = split_top_level_csv values;
            conflict = conflict;
          }))) in
    choose (index_byte b'(' values_body) (err invalid_insert_values)
      λ left. choose (find_matching_paren values_body left) (err invalid_insert_values) (list left)

-- parseInsert behind the column list.
unfoldable pub parse_behind_columns : Text → Text → List Text → Text → Outcome Statement
unfolding find_top_level_keyword slice parse_values codes
parse_behind_columns sql table columns after =
    choose (find after (codes "VALUES")) (ok (raw sql)) λ v. (do
      tail ← slice after (v + length (codes "VALUES")) (length after)
      parse_values table columns (trim_space tail))

unfoldable pub parse_insert : Text → Outcome Statement
unfolding index_byte find_matching_paren slice split_top_level_csv parse_behind_columns
parse_insert sql = do
  tail ← slice sql (length (codes "INSERT INTO ")) (length sql)
  let body = trim_space tail
  let list = λ (left right : ℕ). do
    table ← slice body 0 left
    columns ← slice body (left + 1) right
    after ← slice body (right + 1) (length body)
    parse_behind_columns sql (trim_space table)
        (normalize_identifiers (split_top_level_csv columns)) (trim_space after)
  choose (index_byte b'(' body) (ok (raw sql))
      λ left. choose (find_matching_paren body left) (err invalid_insert_columns) (list left)

-- syntaxTrim: the text with its surrounding space and one semicolon taken off.
unfoldable pub syntax_trim : Text → Text
unfolding trim_space trim_suffix codes
syntax_trim sql = trim_space (trim_suffix (trim_space sql) (codes ";"))

unfoldable pub parse : Text → Outcome Statement
unfolding syntax_trim starts parse_select parse_insert parse_update parse_delete codes
parse sql0 =
    let sql = trim_space sql0 in
    let trimmed = syntax_trim sql in
    if starts trimmed (codes "SELECT ")
    then parse_select trimmed
    else if starts trimmed (codes "INSERT INTO ")
    then parse_insert trimmed
    else if starts trimmed (codes "UPDATE ")
    then parse_update trimmed
    else if starts trimmed (codes "DELETE FROM ")
    then parse_delete trimmed
    else ok (raw sql)
