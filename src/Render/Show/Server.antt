-- ===== src/Render/Show/Server.antt =====
-- renderShowDatabases and renderShowVariables of internal/render/render.go.
use unique_dialect.Base.{[], ◌∷◌, ◌++◌}
use unique_dialect.Dialect.{Dialect, mysql, postgres, sqlite, oracle, other}
use unique_dialect.Outcome.{Outcome, ok, err, unsupported_show_target}
use unique_dialect.Render.Quote.{quote_string_literal, quote_identifier_chain}
use unique_dialect.Render.Show.Clauses.{where_equals, like_clause, first_of_clauses}
use unique_dialect.Text.{Text, codes}
use unique_dialect.Ir.{ShowDatabasesStatement, ShowVariablesStatement}

unfoldable pub show_databases_postgres : ShowDatabasesStatement → Text
unfolding quote_identifier_chain quote_string_literal first_of_clauses codes
show_databases_postgres stmt =
    codes "SELECT datname AS "
    ++ quote_identifier_chain (codes "Database") postgres
    ++ codes " FROM pg_database WHERE datistemplate = false"
    ++ first_of_clauses (
        (stmt.name, codes " AND datname = " ++ quote_string_literal stmt.name)
        ∷ (stmt.pattern, codes " AND datname ILIKE " ++ quote_string_literal stmt.pattern)
        ∷ [])
    ++ codes " ORDER BY datname"

unfoldable pub render_show_databases : ShowDatabasesStatement → Dialect → Outcome Text
unfolding show_databases_postgres first_of_clauses where_equals like_clause codes
render_show_databases stmt postgres = ok (show_databases_postgres stmt)
render_show_databases stmt mysql = ok (
    codes "SHOW DATABASES"
    ++ first_of_clauses (where_equals (codes "Database") stmt.name ∷ like_clause stmt.pattern ∷ []))
render_show_databases stmt sqlite = err unsupported_show_target
render_show_databases stmt oracle = err unsupported_show_target
render_show_databases stmt (other _) = err unsupported_show_target

unfoldable pub show_variables_postgres : ShowVariablesStatement → Text
unfolding quote_identifier_chain quote_string_literal first_of_clauses codes
show_variables_postgres stmt =
    codes "SELECT name AS "
    ++ quote_identifier_chain (codes "Variable_name") postgres
    ++ codes ", setting AS "
    ++ quote_identifier_chain (codes "Value") postgres
    ++ codes " FROM pg_catalog.pg_settings"
    ++ first_of_clauses (
        (stmt.name, codes " WHERE name = " ++ quote_string_literal stmt.name)
        ∷ (stmt.pattern, codes " WHERE name ILIKE " ++ quote_string_literal stmt.pattern)
        ∷ [])
    ++ codes " ORDER BY name"

unfoldable pub render_show_variables : ShowVariablesStatement → Dialect → Outcome Text
unfolding show_variables_postgres first_of_clauses where_equals like_clause codes
render_show_variables stmt postgres = ok (show_variables_postgres stmt)
render_show_variables stmt mysql = ok (
    codes "SHOW VARIABLES"
    ++ first_of_clauses
        (where_equals (codes "Variable_name") stmt.name ∷ like_clause stmt.pattern ∷ []))
render_show_variables stmt sqlite = err unsupported_show_target
render_show_variables stmt oracle = err unsupported_show_target
render_show_variables stmt (other _) = err unsupported_show_target
