-- ===== src/Render/Show/Tables.antt =====
-- renderShowTables of internal/render/render.go.
use unique_dialect.Base.{not, [], ◌∷◌, ◌++◌, if◌then◌else◌}
use unique_dialect.Dialect.{Dialect, mysql, postgres, sqlite, oracle, other}
use unique_dialect.Outcome.{Outcome, ok, err, unsupported_show_target}
use unique_dialect.Render.Quote.{quote_string_literal, quote_identifier_chain}
use unique_dialect.Render.Show.Clauses.{in_database, where_equals, like_clause, first_of_clauses}
use unique_dialect.Text.{Text, codes, trim_space, is_empty}
use unique_dialect.Ir.{ShowTablesStatement}

unfoldable pub render_show_tables_pattern : Text → Text
unfolding quote_string_literal codes
render_show_tables_pattern pattern =
    if is_empty pattern then [] else codes " AND table_name ILIKE " ++ quote_string_literal pattern

-- The name of the column with the tables' names.
unfoldable pub tables_in : Text → Text
unfolding trim_space codes
tables_in database =
    if is_empty (trim_space database)
    then codes "Tables_in_current_schema"
    else codes "Tables_in_" ++ trim_space database

unfoldable pub show_tables_postgres : ShowTablesStatement → Text
unfolding quote_identifier_chain quote_string_literal trim_space tables_in
    render_show_tables_pattern codes
show_tables_postgres stmt =
    let schema_expr =
      if is_empty (trim_space stmt.database)
      then codes "current_schema()"
      else quote_string_literal (trim_space stmt.database) in
    let full_column =
      if stmt.full
      then codes ", CASE WHEN table_type = 'VIEW' THEN 'VIEW' ELSE 'BASE TABLE' END AS "
        ++ quote_identifier_chain (codes "Table_type") postgres
      else [] in
    let filter =
      if not (is_empty stmt.name)
      then codes " AND table_name = " ++ quote_string_literal stmt.name
      else if not (is_empty stmt.table_type)
      then codes " AND table_type = " ++ quote_string_literal stmt.table_type
      else render_show_tables_pattern stmt.pattern in
    codes "SELECT table_name AS "
    ++ quote_identifier_chain (tables_in stmt.database) postgres
    ++ full_column
    ++ codes " FROM information_schema.tables WHERE table_schema = "
    ++ schema_expr
    ++ codes " AND table_type IN ('BASE TABLE', 'VIEW')"
    ++ filter
    ++ codes " ORDER BY table_name"

unfoldable pub show_tables_mysql : ShowTablesStatement → Text
unfolding quote_identifier_chain quote_string_literal in_database tables_in first_of_clauses
    where_equals like_clause codes
show_tables_mysql stmt =
    codes "SHOW "
    ++ (if stmt.full then codes "FULL " else [])
    ++ codes "TABLES"
    ++ in_database stmt.database
    ++ first_of_clauses (
        (
          stmt.name,
          codes " WHERE "
              ++ quote_identifier_chain (tables_in stmt.database) mysql
              ++ codes " = "
              ++ quote_string_literal stmt.name,
        )
        ∷ where_equals (codes "Table_type") stmt.table_type
        ∷ like_clause stmt.pattern
        ∷ [])

unfoldable pub render_show_tables : ShowTablesStatement → Dialect → Outcome Text
unfolding show_tables_postgres show_tables_mysql
render_show_tables stmt postgres = ok (show_tables_postgres stmt)
render_show_tables stmt mysql = ok (show_tables_mysql stmt)
render_show_tables stmt sqlite = err unsupported_show_target
render_show_tables stmt oracle = err unsupported_show_target
render_show_tables stmt (other _) = err unsupported_show_target
