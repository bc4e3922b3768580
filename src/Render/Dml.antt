-- ===== src/Render/Dml.antt =====
-- renderSelect, renderInsert, renderUpdate, renderDelete, renderConflict and renderLimit of
-- internal/render/render.go.
pub mod Limit
pub mod Upsert
use unique_dialect.Base.{
  ℕ, Bool, true, false, List, [], ◌∷◌, ◌++◌, Option, none, some, if◌then◌else◌, choose, map,
}
use unique_dialect.Dialect.{Dialect, mysql, postgres, sqlite, oracle, other}
use unique_dialect.Ir.{
  Join, LimitClause, Assignment, ConflictClause, SelectStatement, InsertStatement, UpdateStatement,
  DeleteStatement,
}
use unique_dialect.Render.Quote.{quote_identifier_chain}
use unique_dialect.Render.Rewrite.{M, ◌>>=◌, done, rewrite_raw}
use unique_dialect.Text.Decimal.{itoa}
use unique_dialect.Text.{Text, codes, trim_space, join, is_empty}

abbrev pub comma_space : Text
comma_space = b',' ∷ b' ' ∷ []

unfoldable pub rewrite_all : List Text → Dialect → Dialect → M (List Text)
unfolding rewrite_raw
rewrite_all [] from to n = ([], n)
rewrite_all (t ∷ ts) from to n =
    let (t', n1) = rewrite_raw t from to n in
    let (ts', n2) = rewrite_all ts from to n1 in (t' ∷ ts', n2)

-- A clause that is written only if its text is not empty.
unfoldable pub optional_clause : Text → Text → Dialect → Dialect → M Text
unfolding rewrite_raw
optional_clause keyword t from to =
    let written = (do t' ← rewrite_raw t from to; done (keyword ++ t')) in
    if is_empty t then done [] else written

unfoldable pub render_joins : List Join → Dialect → Dialect → M Text
unfolding rewrite_raw optional_clause codes trim_space
render_joins [] from to n = ([], n)
render_joins (j ∷ js) from to n =
    let (table, n1) = rewrite_raw j.table from to n in
    let (on, n2) = optional_clause (codes " ON ") j.on from to n1 in
    let (rest, n3) = render_joins js from to n2 in
    (codes " " ++ trim_space j.kind ++ codes " " ++ table ++ on ++ rest, n3)

unfoldable pub render_limit : LimitClause → Dialect → Text
unfolding itoa codes
render_limit limit mysql =
    choose limit.offset (codes " LIMIT " ++ itoa limit.count)
      λ offset. codes " LIMIT " ++ (itoa offset ++ (codes ", " ++ itoa limit.count))
render_limit limit sqlite =
    choose limit.offset (codes " LIMIT " ++ itoa limit.count)
      λ offset. codes " LIMIT " ++ (itoa offset ++ (codes ", " ++ itoa limit.count))
render_limit limit postgres =
    choose limit.offset (codes " LIMIT " ++ itoa limit.count)
      λ offset. codes " LIMIT " ++ (itoa limit.count ++ (codes " OFFSET " ++ itoa offset))
render_limit limit oracle =
    choose limit.offset (codes " FETCH FIRST " ++ itoa limit.count ++ codes " ROWS ONLY") λ offset.
      codes " OFFSET "
      ++ itoa offset
      ++ codes " ROWS FETCH NEXT "
      ++ itoa limit.count
      ++ codes " ROWS ONLY"
render_limit limit (other _) = []

unfoldable pub render_order_by : List Text → Dialect → Dialect → M Text
unfolding rewrite_all join codes
render_order_by [] from to = done []
render_order_by (t ∷ ts) from to = do
  parts ← rewrite_all (t ∷ ts) from to
  done (codes " ORDER BY " ++ join comma_space parts)

unfoldable pub render_select : SelectStatement → Dialect → Dialect → M Text
unfolding rewrite_all rewrite_raw render_joins optional_clause render_order_by render_limit join
    codes
render_select stmt from to = do
  columns ← rewrite_all stmt.columns from to
  from_text ← rewrite_raw stmt.from from to
  joins ← render_joins stmt.joins from to
  condition ← optional_clause (codes " WHERE ") stmt.where_expr from to
  order ← render_order_by stmt.order_by from to
  done (
      codes "SELECT "
      ++ join comma_space columns
      ++ codes " FROM "
      ++ from_text
      ++ joins
      ++ condition
      ++ order
      ++ choose stmt.limit [] (λ l. render_limit l to))

unfoldable pub quote_all : List Text → Dialect → List Text
unfolding quote_identifier_chain
quote_all ts to = map (λ t. quote_identifier_chain t to) ts

-- The assignment of the upsert for one column; the assigned value is not written.
unfoldable pub conflict_assignment : Dialect → Text → Text
unfolding quote_identifier_chain codes
conflict_assignment mysql column =
    quote_identifier_chain column mysql
    ++ codes " = VALUES("
    ++ quote_identifier_chain column mysql
    ++ codes ")"
conflict_assignment sqlite column =
    quote_identifier_chain column sqlite
    ++ codes " = excluded."
    ++ quote_identifier_chain column sqlite
conflict_assignment postgres column =
    quote_identifier_chain column postgres
    ++ codes " = EXCLUDED."
    ++ quote_identifier_chain column postgres
conflict_assignment oracle column = []
conflict_assignment (other _) column = []

unfoldable pub conflict_assignments : List Assignment → Dialect → Text
unfolding conflict_assignment join
conflict_assignments assignments to =
    join comma_space (map (λ (a : Assignment). conflict_assignment to a.column) assignments)

unfoldable pub on_conflict : ConflictClause → Dialect → Text
unfolding quote_all join codes conflict_assignments
on_conflict conflict to =
    codes " ON CONFLICT ("
    ++ join comma_space (quote_all conflict.target_columns to)
    ++ codes ") DO UPDATE SET "
    ++ conflict_assignments conflict.assignments to

unfoldable pub render_conflict : ConflictClause → Dialect → Text
unfolding on_conflict conflict_assignments codes
render_conflict conflict mysql =
    codes " ON DUPLICATE KEY UPDATE " ++ conflict_assignments conflict.assignments mysql
render_conflict conflict postgres = on_conflict conflict postgres
render_conflict conflict sqlite = on_conflict conflict sqlite
render_conflict conflict oracle = []
render_conflict conflict (other _) = []

unfoldable pub render_insert : InsertStatement → Dialect → Dialect → M Text
unfolding rewrite_all quote_all quote_identifier_chain render_conflict join codes
render_insert stmt from to = do
  values ← rewrite_all stmt.values from to
  done (
      codes "INSERT INTO "
      ++ quote_identifier_chain stmt.table to
      ++ codes " ("
      ++ join comma_space (quote_all stmt.columns to)
      ++ codes ") VALUES ("
      ++ join comma_space values
      ++ codes ")"
      ++ choose stmt.conflict [] (λ c. render_conflict c to))

unfoldable pub render_assignments : List Assignment → Dialect → Dialect → M (List Text)
unfolding rewrite_raw quote_identifier_chain codes
render_assignments [] from to n = ([], n)
render_assignments (a ∷ rest) from to n =
    let (value, n1) = rewrite_raw a.value from to n in
    let (parts, n2) = render_assignments rest from to n1 in
    ((quote_identifier_chain a.column to ++ codes " = " ++ value) ∷ parts, n2)

unfoldable pub render_update : UpdateStatement → Dialect → Dialect → M Text
unfolding render_assignments optional_clause quote_identifier_chain join codes
render_update stmt from to = do
  parts ← render_assignments stmt.assignments from to
  condition ← optional_clause (codes " WHERE ") stmt.where_expr from to
  done (
      codes "UPDATE "
      ++ quote_identifier_chain stmt.table to
      ++ codes " SET "
      ++ join comma_space parts
      ++ condition)

unfoldable pub render_delete : DeleteStatement → Dialect → Dialect → M Text
unfolding optional_clause quote_identifier_chain codes
render_delete stmt from to = do
  condition ← optional_clause (codes " WHERE ") stmt.where_expr from to
  done (codes "DELETE FROM " ++ quote_identifier_chain stmt.table to ++ condition)
