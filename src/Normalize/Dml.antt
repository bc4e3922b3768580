-- ===== src/Normalize/Dml.antt =====
-- internal/normalize/tidb_dml.go: the data statements, which are taken apart from the text with the
-- scanner; only the limit and the upsert come from the nodes of the TiDB parser.
pub mod Safe
use unique_dialect.Base.{ℕ, ◌+◌, List, [], ◌∷◌, Option, none, some, map, choose, length, take, drop}
use unique_dialect.Ir
use unique_dialect.Normalize.{strip_identifier}
use unique_dialect.Normalize.Nodes.{tidb_node_text, expr_text, parse_tidb_int_expr}
use unique_dialect.Outcome.{
  Outcome, ok, err, ◌>>=◌, missing_from_clause, missing_set_clause, invalid_insert_columns,
  invalid_insert_values, invalid_assignment,
}
use unique_dialect.Syntax.Clauses.{find, earliest_positive, end_or, where_clause, order_clause}
use unique_dialect.Syntax.Scan.{
  trim_statement, find_top_level_keyword, split_top_level_csv, find_matching_paren,
}
use unique_dialect.Text.Decimal.{ℤ}
use unique_dialect.Text.{Text, codes, trim_space, to_upper, index_byte, slice, slice_from}
use unique_dialect.Tidb

unfoldable pub normalize_tidb_raw : Text → Ir.Statement
unfolding trim_statement
normalize_tidb_raw sql = Ir.raw (trim_statement sql)

pub record SelectParts : Type 0 where
  pub columns : List Text
  pub from : Text
  pub where_expr : Text
  pub order_by : List Text

-- extractSelectParts behind FROM.
unfoldable pub select_parts_after : List Text → Text → Outcome SelectParts
unfolding find_top_level_keyword earliest_positive where_clause order_clause slice trim_space codes
select_parts_after columns after = do
  let where_idx = find after (codes " WHERE ")
  let order_idx = find after (codes " ORDER BY ")
  let limit_idx = find after (codes " LIMIT ")
  let from_end = earliest_positive (where_idx ∷ order_idx ∷ limit_idx ∷ [])
  from_part ← slice after 0 (end_or (length after) from_end)
  where_expr ← where_clause after where_idx order_idx limit_idx
  order_by ← order_clause after order_idx limit_idx
  ok (record {
    columns = columns;
    from = trim_space from_part;
    where_expr = where_expr;
    order_by = order_by;
  })

unfoldable pub extract_select_parts : Text → Outcome SelectParts
unfolding trim_statement slice slice_from find_top_level_keyword split_top_level_csv codes
    select_parts_after
extract_select_parts sql = do
  tail ← slice_from (trim_statement sql) (length (codes "SELECT "))
  let body = trim_space tail
  let rest = λ (from_idx : ℕ). do
    columns ← slice body 0 from_idx
    after ← slice_from body (from_idx + length (codes " FROM "))
    select_parts_after (split_top_level_csv columns) after
  choose (find body (codes " FROM ")) (err missing_from_clause) rest

unfoldable pub normalize_tidb_offset : Option Tidb.Expr → Outcome (Option ℤ)
unfolding parse_tidb_int_expr
normalize_tidb_offset none = ok none
normalize_tidb_offset (some e) = do offset ← parse_tidb_int_expr e; ok (some offset)

unfoldable pub normalize_tidb_limit : Option Tidb.Limit → Outcome (Option Ir.LimitClause)
unfolding parse_tidb_int_expr normalize_tidb_offset
normalize_tidb_limit none = ok none
normalize_tidb_limit (some l) = do
  count ← parse_tidb_int_expr l.count
  offset ← normalize_tidb_offset l.offset
  ok (some (record { offset = offset; count = count }))

unfoldable pub normalize_tidb_select : Text → Tidb.SelectStmt → Outcome Ir.Statement
unfolding extract_select_parts normalize_tidb_limit
normalize_tidb_select sql stmt = do
  parts ← extract_select_parts sql
  limit ← normalize_tidb_limit stmt.limit
  ok (
      Ir.select (record {
        columns = parts.columns;
        from = parts.from;
        joins = [];
        where_expr = parts.where_expr;
        order_by = parts.order_by;
        limit = limit;
      }))

pub record InsertParts : Type 0 where
  pub table : Text
  pub columns : List Text
  pub values : List Text

unfoldable pub normalize_identifiers : List Text → List Text
unfolding strip_identifier
normalize_identifiers = map strip_identifier

-- extractInsertParts behind `VALUES`.
unfoldable pub insert_values : Text → List Text → Text → Outcome InsertParts
unfolding index_byte find_matching_paren slice split_top_level_csv
insert_values table columns values_body =
    let list = λ (left right : ℕ). (do
      values ← slice values_body (left + 1) right
      ok (record { table = table; columns = columns; values = split_top_level_csv values })) in
    choose (index_byte b'(' values_body) (err invalid_insert_values)
      λ left. choose (find_matching_paren values_body left) (err invalid_insert_values) (list left)

-- extractInsertParts behind the first list in parentheses.
unfoldable pub insert_after_columns : Text → List Text → Text → Outcome InsertParts
unfolding find_top_level_keyword slice_from insert_values codes trim_space
insert_after_columns table columns after =
    choose (find (to_upper after) (codes "VALUES"))
      (ok (record { table = table; columns = columns; values = [] }))
      λ v. (do
        tail ← slice_from after (v + length (codes "VALUES"))
        insert_values table columns (trim_space tail))

unfoldable pub extract_insert_parts : Text → Outcome InsertParts
unfolding trim_statement slice slice_from index_byte find_matching_paren split_top_level_csv codes
    strip_identifier normalize_identifiers insert_after_columns
extract_insert_parts sql = do
  tail ← slice_from (trim_statement sql) (length (codes "INSERT INTO "))
  let body = trim_space tail
  let list = λ (left right : ℕ). do
    table ← slice body 0 left
    columns ← slice body (left + 1) right
    after ← slice_from body (right + 1)
    insert_after_columns (strip_identifier (trim_space table))
        (normalize_identifiers (split_top_level_csv columns)) (trim_space after)
  choose (index_byte b'(' body) (err invalid_insert_columns)
      λ left. choose (find_matching_paren body left) (err invalid_insert_columns) (list left)

unfoldable pub duplicate_of : Tidb.Assignment → Ir.Assignment
unfolding strip_identifier tidb_node_text expr_text
duplicate_of a = record {
  column = strip_identifier (tidb_node_text a.column);
  value = expr_text a.expr;
}

abbrev pub first_of : List Text → List Text
first_of [] = []
first_of (c ∷ cs) = c ∷ []

unfoldable pub normalize_tidb_conflict : List Text → List Tidb.Assignment → Option Ir.ConflictClause
unfolding duplicate_of
normalize_tidb_conflict columns [] = none
normalize_tidb_conflict columns (a ∷ rest) = some (record {
  style = Ir.mysql_style;
  target_columns = first_of columns;
  assignments = map duplicate_of (a ∷ rest);
})

unfoldable pub normalize_tidb_insert : Text → List Tidb.Assignment → Outcome Ir.Statement
unfolding extract_insert_parts normalize_tidb_conflict
normalize_tidb_insert sql on_duplicate = do
  parts ← extract_insert_parts sql
  ok (
      Ir.insert (record {
        table = parts.table;
        columns = parts.columns;
        values = parts.values;
        conflict = normalize_tidb_conflict parts.columns on_duplicate;
      }))

-- One part of parseAssignments.
unfoldable pub parse_assignment : Text → Outcome Ir.Assignment
unfolding index_byte strip_identifier trim_space
parse_assignment part = choose (index_byte b'=' part) (err invalid_assignment) λ i. ok (record {
  column = strip_identifier (trim_space (take i part));
  value = trim_space (drop (i + 1) part);
})

unfoldable pub parse_assignment_list : List Text → Outcome (List Ir.Assignment)
unfolding parse_assignment
parse_assignment_list [] = ok []
parse_assignment_list (p ∷ ps) = do
  a ← parse_assignment p
  rest ← parse_assignment_list ps
  ok (a ∷ rest)

unfoldable pub parse_assignments : Text → Outcome (List Ir.Assignment)
unfolding parse_assignment_list split_top_level_csv
parse_assignments input = parse_assignment_list (split_top_level_csv input)

-- extractUpdateParts behind SET; its parts are those of the statement.
unfoldable pub update_after_set : Text → Text → Outcome Ir.UpdateStatement
unfolding find_top_level_keyword slice slice_from parse_assignments codes trim_space
update_after_set table after = do
  let with_where = λ (w : ℕ). do
    part ← slice after 0 w
    cond ← slice_from after (w + length (codes " WHERE "))
    assignments ← parse_assignments part
    ok (record { table = table; assignments = assignments; where_expr = trim_space cond })
  let whole = do
    assignments ← parse_assignments after
    ok (record { table = table; assignments = assignments; where_expr = [] })
  choose (find after (codes " WHERE ")) (whole) with_where

unfoldable pub extract_update_parts : Text → Outcome Ir.UpdateStatement
unfolding trim_statement slice slice_from find_top_level_keyword strip_identifier codes
    update_after_set
extract_update_parts sql = do
  tail ← slice_from (trim_statement sql) (length (codes "UPDATE "))
  let body = trim_space tail
  let rest = λ (set_idx : ℕ). do
    table ← slice body 0 set_idx
    after ← slice_from body (set_idx + length (codes " SET "))
    update_after_set (strip_identifier (trim_space table)) after
  choose (find body (codes " SET ")) (err missing_set_clause) rest

unfoldable pub normalize_tidb_update : Text → Outcome Ir.Statement
unfolding extract_update_parts
normalize_tidb_update sql = do parts ← extract_update_parts sql; ok (Ir.update parts)

unfoldable pub extract_delete_parts : Text → Outcome Ir.DeleteStatement
unfolding trim_statement slice slice_from find_top_level_keyword strip_identifier codes trim_space
extract_delete_parts sql = do
  tail ← slice_from (trim_statement sql) (length (codes "DELETE FROM "))
  let body = trim_space tail
  let rest = λ (w : ℕ). do
    table ← slice body 0 w
    cond ← slice_from body (w + length (codes " WHERE "))
    ok (record { table = strip_identifier (trim_space table); where_expr = trim_space cond })
  choose (find body (codes " WHERE "))
      (ok (record { table = strip_identifier (trim_space body); where_expr = [] })) rest

unfoldable pub normalize_tidb_delete : Text → Outcome Ir.Statement
unfolding extract_delete_parts
normalize_tidb_delete sql = do parts ← extract_delete_parts sql; ok (Ir.delete parts)
