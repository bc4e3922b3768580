-- ===== src/Syntax/Postgres/Safe.antt =====
-- Parse of internal/syntax/postgres/parser.go comes back for the statements that change data.
use unique_dialect.Base.{◌+◌, ◌≤◌, false, List, ◌≡◌, arith, if-ind, length}
use unique_dialect.Outcome.{Returns, >>=-Returns}
use unique_dialect.Syntax.Clauses.Safe.{
  slice-Returns, find-fits, starts-length, find_matching_paren-fits, choose-Returns,
  parse_assignments-Returns, parse_update-Returns, parse_delete-Returns,
}
use unique_dialect.Syntax.Clauses.{find, starts, normalize_identifiers}
use unique_dialect.Syntax.Postgres.{
  parse_conflict_action, parse_conflict_target, parse_upsert, parse_values, parse_behind_columns,
  parse_insert, syntax_trim, parse,
}
use unique_dialect.Syntax.Scan.Keyword.{length-to_upper}
use unique_dialect.Syntax.Scan.{split_top_level_csv, find_matching_paren}
use unique_dialect.Text.{IsAscii, Text, codes, to_upper, index_byte, trim_space, is_empty}

parse_conflict_action-Returns :
    (targets : List Text) (after : Text) → Returns (parse_conflict_action targets after)
unfolding parse_conflict_action codes
parse_conflict_action-Returns targets after =
    if-ind Returns (starts after (codes "DO UPDATE SET ")) _ _
      (λ s.
        let fits = starts-length after (codes "DO UPDATE SET ") s in
        slice-Returns after 14 (length after) _ (omega arith) (omega arith)
          λ tail. >>=-Returns _ _ (parse_assignments-Returns tail) λ _ _. tt)
      (λ _. tt)

parse_conflict_target-Returns : (body : Text) → Returns (parse_conflict_target body)
unfolding parse_conflict_target
parse_conflict_target-Returns body = choose-Returns (index_byte b'(' body) _ _ tt λ left e.
    choose-Returns (find_matching_paren body left) _ _ tt λ right e'.
      let (before, within) = find_matching_paren-fits body left right e' in
      slice-Returns body (left + 1) right _ (omega arith) (omega arith) λ targets.
        slice-Returns body (right + 1) (length body) _ (omega arith) (omega arith) λ after.
          parse_conflict_action-Returns (normalize_identifiers (split_top_level_csv targets))
            (trim_space after)

parse_upsert-Returns : (rest : Text) → Returns (parse_upsert rest)
unfolding parse_upsert codes
parse_upsert-Returns rest =
    if-ind Returns (is_empty rest) _ _ (λ h. tt)
      λ h.
        if-ind Returns (starts rest (codes "ON CONFLICT ")) _ _
          (λ s.
            let fits = starts-length rest (codes "ON CONFLICT ") s in
            slice-Returns rest 12 (length rest) _ (omega arith) (omega arith)
              λ tail. parse_conflict_target-Returns (trim_space tail))
          (λ _. tt)

parse_values-Returns :
    (table : Text) (columns : List Text) (body : Text) → Returns (parse_values table columns body)
unfolding parse_values
parse_values-Returns table columns body = choose-Returns (index_byte b'(' body) _ _ tt λ left e.
    choose-Returns (find_matching_paren body left) _ _ tt λ right e'.
      let (before, within) = find_matching_paren-fits body left right e' in
      slice-Returns body (left + 1) right _ (omega arith) (omega arith) λ values.
        slice-Returns body (right + 1) (length body) _ (omega arith) (omega arith)
          λ rest. >>=-Returns _ _ (parse_upsert-Returns (trim_space rest)) λ _ _. tt

parse_behind_columns-Returns :
    (sql table : Text) (columns : List Text) (after : Text)
    → Returns (parse_behind_columns sql table columns after)
unfolding parse_behind_columns codes
parse_behind_columns-Returns sql table columns after =
    choose-Returns (find (to_upper after) (codes "VALUES")) _ _ tt λ v e.
      let fits = find-fits (to_upper after) (codes "VALUES") v (λ z. cc) e in
      let same = length-to_upper after in
      slice-Returns after (v + 6) (length after) _ (omega arith) (omega arith)
        λ tail. parse_values-Returns table columns (trim_space tail)

parse_insert-Returns : (sql : Text) → 12 ≤ length sql → Returns (parse_insert sql)
unfolding parse_insert codes
parse_insert-Returns sql h = slice-Returns sql 12 (length sql) _ h (omega arith) λ tail.
    let body = trim_space tail in
    choose-Returns (index_byte b'(' body) _ _ tt λ left e.
      choose-Returns (find_matching_paren body left) _ _ tt λ right e'.
        let (before, within) = find_matching_paren-fits body left right e' in
        slice-Returns body 0 left _ (omega arith) (omega arith) λ table.
          slice-Returns body (left + 1) right _ (omega arith) (omega arith) λ columns.
            slice-Returns body (right + 1) (length body) _ (omega arith) (omega arith) λ after.
              parse_behind_columns-Returns sql (trim_space table)
                (normalize_identifiers (split_top_level_csv columns)) (trim_space after)

-- Parse of the PostgreSQL parser never panics on a text of ASCII characters that is no SELECT: whatever it
-- begins with, broken quotes, parentheses and clauses included, each slice lies within its text.
pub postgres_parse-Returns :
    (sql : Text)
    → IsAscii sql
    → starts (syntax_trim (trim_space sql)) (codes "SELECT ") ≡ false
    → Returns (parse sql)
unfolding parse codes
postgres_parse-Returns sql ascii no_select =
    let trimmed = syntax_trim (trim_space sql) in
    rw no_select (
      if-ind Returns (starts trimmed (codes "INSERT INTO ")) _ _
        (λ s. parse_insert-Returns trimmed (starts-length trimmed (codes "INSERT INTO ") s))
        λ _.
          if-ind Returns (starts trimmed (codes "UPDATE ")) _ _
            (λ s. parse_update-Returns trimmed (starts-length trimmed (codes "UPDATE ") s))
            λ _.
              if-ind Returns (starts trimmed (codes "DELETE FROM ")) _ _
                (λ s. parse_delete-Returns trimmed (starts-length trimmed (codes "DELETE FROM ") s))
                λ _. tt)
