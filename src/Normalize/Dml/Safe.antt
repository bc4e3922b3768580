-- ===== src/Normalize/Dml/Safe.antt =====
-- When internal/normalize/tidb_dml.go takes a text apart without a panic.
use unique_dialect.Base.{◌+◌, ◌≤◌, List, [], ◌∷◌, arith, length}
use unique_dialect.Normalize.Dml.{
  insert_values, insert_after_columns, extract_insert_parts, normalize_tidb_insert,
  parse_assignment, parse_assignment_list, parse_assignments, update_after_set,
  extract_update_parts, normalize_tidb_update, extract_delete_parts, normalize_tidb_delete,
  normalize_identifiers,
}
use unique_dialect.Normalize.{strip_identifier}
use unique_dialect.Outcome.{Returns, >>=-Returns}
use unique_dialect.Syntax.Clauses.Safe.{
  slice-Returns, find-fits, find_matching_paren-fits, choose-Returns,
}
use unique_dialect.Syntax.Clauses.{find}
use unique_dialect.Syntax.Scan.Keyword.{length-to_upper}
use unique_dialect.Syntax.Scan.{trim_statement, split_top_level_csv, find_matching_paren}
use unique_dialect.Text.{Text, codes, index_byte, slice_from, to_upper, trim_space}
use unique_dialect.Tidb

insert_values-Returns :
    (table : Text) (columns : List Text) (body : Text) → Returns (insert_values table columns body)
unfolding insert_values
insert_values-Returns table columns body = choose-Returns (index_byte b'(' body) _ _ tt λ left e.
    choose-Returns (find_matching_paren body left) _ _ tt λ right e'.
      let (before, within) = find_matching_paren-fits body left right e' in
      slice-Returns body (left + 1) right _ (omega arith) (omega arith) λ values. tt

insert_after_columns-Returns :
    (table : Text) (columns : List Text) (after : Text)
    → Returns (insert_after_columns table columns after)
unfolding insert_after_columns slice_from codes
insert_after_columns-Returns table columns after =
    choose-Returns (find (to_upper after) (codes "VALUES")) _ _ tt λ v e.
      let fits = find-fits (to_upper after) (codes "VALUES") v (λ z. cc) e in
      slice-Returns after (v + 6) (length after) _ (omega (arith, length-to_upper after))
        (omega arith) λ tail. insert_values-Returns table columns (trim_space tail)

extract_insert_parts-Returns :
    (sql : Text) → 12 ≤ length (trim_statement sql) → Returns (extract_insert_parts sql)
unfolding extract_insert_parts slice_from codes
extract_insert_parts-Returns sql h =
    slice-Returns (trim_statement sql) 12 (length (trim_statement sql)) _ h (omega arith) λ tail.
      let body = trim_space tail in
      choose-Returns (index_byte b'(' body) _ _ tt λ left e.
        choose-Returns (find_matching_paren body left) _ _ tt λ right e'.
          let (before, within) = find_matching_paren-fits body left right e' in
          slice-Returns body 0 left _ (omega arith) (omega arith) λ table.
            slice-Returns body (left + 1) right _ (omega arith) (omega arith) λ columns.
              slice-Returns body (right + 1) (length body) _ (omega arith) (omega arith) λ after.
                insert_after_columns-Returns (strip_identifier (trim_space table))
                  (normalize_identifiers (split_top_level_csv columns)) (trim_space after)

pub normalize_tidb_insert-Returns :
    (sql : Text) (dup : List Tidb.Assignment)
    → 12 ≤ length (trim_statement sql)
    → Returns (normalize_tidb_insert sql dup)
unfolding normalize_tidb_insert
normalize_tidb_insert-Returns sql dup h =
    >>=-Returns _ _ (extract_insert_parts-Returns sql h) λ _ _. tt

parse_assignment_list-Returns : (ps : List Text) → Returns (parse_assignment_list ps)
unfolding parse_assignment_list
parse_assignment_list-Returns [] = tt
parse_assignment_list-Returns (p ∷ ps) =
    >>=-Returns (parse_assignment p) _ (one p)
      λ a _. >>=-Returns (parse_assignment_list ps) _ (parse_assignment_list-Returns ps) λ _ _. tt
  where
    one : (p : Text) → Returns (parse_assignment p)
    one p = choose-Returns (index_byte b'=' p) _ _ tt λ i e. tt

parse_assignments-Returns : (s : Text) → Returns (parse_assignments s)
unfolding parse_assignments
parse_assignments-Returns s = parse_assignment_list-Returns (split_top_level_csv s)

update_after_set-Returns : (table after : Text) → Returns (update_after_set table after)
unfolding update_after_set slice_from codes
update_after_set-Returns table after =
    choose-Returns (find after (codes " WHERE ")) _ _
      (>>=-Returns (parse_assignments after) _ (parse_assignments-Returns after) λ _ _. tt)
      λ w e.
        let fits = find-fits after (codes " WHERE ") w (λ z. cc) e in
        slice-Returns after 0 w _ (omega arith) (omega arith) λ part.
          slice-Returns after (w + 7) (length after) _ (omega arith) (omega arith) λ cond.
            >>=-Returns (parse_assignments part) _ (parse_assignments-Returns part) λ _ _. tt

pub normalize_tidb_update-Returns :
    (sql : Text) → 7 ≤ length (trim_statement sql) → Returns (normalize_tidb_update sql)
unfolding normalize_tidb_update extract_update_parts slice_from codes
normalize_tidb_update-Returns sql h =
    >>=-Returns (extract_update_parts sql) _
      (slice-Returns (trim_statement sql) 7 (length (trim_statement sql)) _ h (omega arith) λ tail.
        let body = trim_space tail in
        choose-Returns (find body (codes " SET ")) _ _ tt λ i e.
          let fits = find-fits body (codes " SET ") i (λ z. cc) e in
          slice-Returns body 0 i _ (omega arith) (omega arith) λ table.
            slice-Returns body (i + 5) (length body) _ (omega arith) (omega arith)
              λ after. update_after_set-Returns (strip_identifier (trim_space table)) after)
      λ _ _. tt

pub normalize_tidb_delete-Returns :
    (sql : Text) → 12 ≤ length (trim_statement sql) → Returns (normalize_tidb_delete sql)
unfolding normalize_tidb_delete extract_delete_parts slice_from codes
normalize_tidb_delete-Returns sql h =
    >>=-Returns (extract_delete_parts sql) _
      (slice-Returns (trim_statement sql) 12 (length (trim_statement sql)) _ h (omega arith) λ tail.
        let body = trim_space tail in
        choose-Returns (find body (codes " WHERE ")) _ _ tt λ w e.
          let fits = find-fits body (codes " WHERE ") w (λ z. cc) e in
          slice-Returns body 0 w _ (omega arith) (omega arith) λ table.
            slice-Returns body (w + 7) (length body) _ (omega arith) (omega arith) λ cond. tt)
      λ _ _. tt
