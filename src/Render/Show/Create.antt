-- ===== src/Render/Show/Create.antt =====
-- renderShowCreateDatabase, renderShowCreateTable and renderShowCreateView of
-- internal/render/render.go.
use unique_dialect.Base.{◌++◌, if◌then◌else◌}
use unique_dialect.Dialect.{Dialect, mysql, postgres, sqlite, oracle, other}
use unique_dialect.Outcome.{Outcome, ok, err, unsupported_show_target}
use unique_dialect.Render.Quote.{
  quote_string_literal, quote_identifier_chain, quote_identifier_part,
}
use unique_dialect.Text.{Text, codes, trim_space, is_empty}
use unique_dialect.Ir.{
  ShowCreateDatabaseStatement, ShowCreateTableStatement, ShowCreateViewStatement,
}

unfoldable pub create_database_postgres : ShowCreateDatabaseStatement → Text
unfolding quote_identifier_chain quote_string_literal trim_space codes
create_database_postgres stmt =
    codes "SELECT datname AS "
    ++ quote_identifier_chain (codes "Database") postgres
    ++ codes
        ", 'CREATE DATABASE ' || quote_ident(datname) || ' ENCODING = ' || quote_literal(pg_encoding_to_char(encoding)) || ' LC_COLLATE = ' || quote_literal(datcollate) || ' LC_CTYPE = ' || quote_literal(datctype) AS "
    ++ quote_identifier_chain (codes "Create Database") postgres
    ++ codes " FROM pg_database WHERE datname = "
    ++ quote_string_literal (trim_space stmt.name)

unfoldable pub create_database_mysql : ShowCreateDatabaseStatement → Text
unfolding quote_identifier_chain codes
create_database_mysql stmt =
    if stmt.if_not_exists
    then codes "SHOW CREATE DATABASE IF NOT EXISTS " ++ quote_identifier_chain stmt.name mysql
    else codes "SHOW CREATE DATABASE " ++ quote_identifier_chain stmt.name mysql

unfoldable pub render_show_create_database : ShowCreateDatabaseStatement → Dialect → Outcome Text
unfolding create_database_postgres create_database_mysql
render_show_create_database stmt postgres = ok (create_database_postgres stmt)
render_show_create_database stmt mysql = ok (create_database_mysql stmt)
render_show_create_database stmt sqlite = err unsupported_show_target
render_show_create_database stmt oracle = err unsupported_show_target
render_show_create_database stmt (other _) = err unsupported_show_target

unfoldable pub create_table_postgres : ShowCreateTableStatement → Text
unfolding quote_identifier_chain quote_string_literal trim_space codes
create_table_postgres stmt =
    let schema_predicate =
      if is_empty (trim_space stmt.schema)
      then codes "pg_table_is_visible(c.oid)"
      else codes "n.nspname = " ++ quote_string_literal (trim_space stmt.schema) in
    codes "SELECT c.relname AS "
    ++ quote_identifier_chain (codes "Table") postgres
    ++ codes
        ", 'CREATE TABLE ' || quote_ident(n.nspname) || '.' || quote_ident(c.relname) || E' (\\n' || cols.columns || COALESCE(E',\\n' || cons.constraints, '') || E'\\n)' AS "
    ++ quote_identifier_chain (codes "Create Table") postgres
    ++ codes " FROM pg_class c JOIN pg_namespace n ON n.oid = c.relnamespace"
    ++ codes
        " JOIN LATERAL (SELECT string_agg('  ' || quote_ident(a.attname) || ' ' || format_type(a.atttypid, a.atttypmod) || CASE WHEN a.attidentity = 'a' THEN ' GENERATED ALWAYS AS IDENTITY' WHEN a.attidentity = 'd' THEN ' GENERATED BY DEFAULT AS IDENTITY' WHEN a.attgenerated = 's' THEN ' GENERATED ALWAYS AS (' || pg_get_expr(ad.adbin, ad.adrelid) || ') STORED' ELSE '' END || CASE WHEN a.attgenerated = '' AND ad.adbin IS NOT NULL THEN ' DEFAULT ' || pg_get_expr(ad.adbin, ad.adrelid) ELSE '' END || CASE WHEN a.attnotnull THEN ' NOT NULL' ELSE '' END, E',\\n' ORDER BY a.attnum) AS columns FROM pg_attribute a LEFT JOIN pg_attrdef ad ON ad.adrelid = a.attrelid AND ad.adnum = a.attnum WHERE a.attrelid = c.oid AND a.attnum > 0 AND NOT a.attisdropped) cols ON TRUE"
    ++ codes
        " LEFT JOIN LATERAL (SELECT string_agg('  CONSTRAINT ' || quote_ident(con.conname) || ' ' || pg_get_constraintdef(con.oid, true), E',\\n' ORDER BY con.conname) AS constraints FROM pg_constraint con WHERE con.conrelid = c.oid) cons ON TRUE"
    ++ codes " WHERE c.relkind IN ('r', 'p') AND c.relname = "
    ++ quote_string_literal (trim_space stmt.name)
    ++ codes " AND "
    ++ schema_predicate

unfoldable pub create_table_mysql : ShowCreateTableStatement → Text
unfolding quote_identifier_part trim_space codes
create_table_mysql stmt =
    if is_empty (trim_space stmt.schema)
    then codes "SHOW CREATE TABLE " ++ quote_identifier_part stmt.name mysql
    else codes "SHOW CREATE TABLE "
      ++ quote_identifier_part stmt.schema mysql
      ++ codes "."
      ++ quote_identifier_part stmt.name mysql

unfoldable pub render_show_create_table : ShowCreateTableStatement → Dialect → Outcome Text
unfolding create_table_postgres create_table_mysql
render_show_create_table stmt postgres = ok (create_table_postgres stmt)
render_show_create_table stmt mysql = ok (create_table_mysql stmt)
render_show_create_table stmt sqlite = err unsupported_show_target
render_show_create_table stmt oracle = err unsupported_show_target
render_show_create_table stmt (other _) = err unsupported_show_target

unfoldable pub create_view_postgres : ShowCreateViewStatement → Text
unfolding quote_identifier_chain quote_string_literal trim_space codes
create_view_postgres stmt =
    let schema_predicate =
      if is_empty (trim_space stmt.schema)
      then codes "current_schema()"
      else quote_string_literal (trim_space stmt.schema) in
    codes "SELECT c.relname AS "
    ++ quote_identifier_chain (codes "View") postgres
    ++ codes
        ", 'CREATE VIEW ' || quote_ident(n.nspname) || '.' || quote_ident(c.relname) || ' AS ' || pg_get_viewdef(c.oid, true) AS "
    ++ quote_identifier_chain (codes "Create View") postgres
    ++ codes
        " FROM pg_class c JOIN pg_namespace n ON n.oid = c.relnamespace WHERE c.relkind = 'v' AND c.relname = "
    ++ quote_string_literal (trim_space stmt.name)
    ++ codes " AND n.nspname = "
    ++ schema_predicate

unfoldable pub create_view_mysql : ShowCreateViewStatement → Text
unfolding quote_identifier_part trim_space codes
create_view_mysql stmt =
    if is_empty (trim_space stmt.schema)
    then codes "SHOW CREATE VIEW " ++ quote_identifier_part stmt.name mysql
    else codes "SHOW CREATE VIEW "
      ++ quote_identifier_part stmt.schema mysql
      ++ codes "."
      ++ quote_identifier_part stmt.name mysql

unfoldable pub render_show_create_view : ShowCreateViewStatement → Dialect → Outcome Text
unfolding create_view_postgres create_view_mysql
render_show_create_view stmt postgres = ok (create_view_postgres stmt)
render_show_create_view stmt mysql = ok (create_view_mysql stmt)
render_show_create_view stmt sqlite = err unsupported_show_target
render_show_create_view stmt oracle = err unsupported_show_target
render_show_create_view stmt (other _) = err unsupported_show_target
