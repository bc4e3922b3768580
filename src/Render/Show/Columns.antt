-- ===== src/Render/Show/Columns.antt =====
-- renderShowColumns of internal/render/render.go.
use unique_dialect.Base.{Bool, [], ◌∷◌, ◌++◌, if◌then◌else◌}
use unique_dialect.Dialect.{Dialect, mysql, postgres, sqlite, oracle, other}
use unique_dialect.Outcome.{Outcome, ok, err, unsupported_show_target}
use unique_dialect.Render.Quote.{quote_string_literal, quote_identifier_chain}
use unique_dialect.Render.Show.Clauses.{in_database, where_equals, like_clause, first_of_clauses}
use unique_dialect.Text.{Text, codes, trim_space, is_empty}
use unique_dialect.Ir.{ShowColumnsStatement}

-- The columns that `full` adds stand between the others.
unfoldable pub show_columns_selected : Bool → Text
unfolding quote_identifier_chain codes
show_columns_selected full =
    let common =
      codes "a.attname AS "
      ++ quote_identifier_chain (codes "Field") postgres
      ++ codes ", format_type(a.atttypid, a.atttypmod) AS "
      ++ quote_identifier_chain (codes "Type") postgres in
    let collation =
      codes ", coll.collname AS " ++ quote_identifier_chain (codes "Collation") postgres in
    let rest =
      codes ", CASE WHEN a.attnotnull THEN 'NO' ELSE 'YES' END AS "
      ++ quote_identifier_chain (codes "Null") postgres
      ++ codes
          ", CASE WHEN EXISTS (SELECT 1 FROM pg_index ix WHERE ix.indrelid = t.oid AND ix.indisprimary AND a.attnum = ANY(ix.indkey)) THEN 'PRI' WHEN EXISTS (SELECT 1 FROM pg_index ix WHERE ix.indrelid = t.oid AND ix.indisunique AND ix.indnkeyatts = 1 AND a.attnum = ANY(ix.indkey)) THEN 'UNI' WHEN EXISTS (SELECT 1 FROM pg_index ix WHERE ix.indrelid = t.oid AND a.attnum = ANY(ix.indkey)) THEN 'MUL' ELSE '' END AS "
      ++ quote_identifier_chain (codes "Key") postgres
      ++ codes ", pg_get_expr(ad.adbin, ad.adrelid) AS "
      ++ quote_identifier_chain (codes "Default") postgres
      ++ codes
          ", CASE WHEN a.attidentity IN ('a', 'd') THEN 'auto_increment' WHEN a.attgenerated = 's' THEN 'STORED GENERATED' ELSE '' END AS "
      ++ quote_identifier_chain (codes "Extra") postgres in
    let comments =
      codes ", '' AS "
      ++ quote_identifier_chain (codes "Privileges") postgres
      ++ codes ", COALESCE(col_description(t.oid, a.attnum), '') AS "
      ++ quote_identifier_chain (codes "Comment") postgres in
    if full then common ++ collation ++ rest ++ comments else common ++ rest

unfoldable pub show_columns_postgres : ShowColumnsStatement → Text
unfolding show_columns_selected first_of_clauses quote_string_literal trim_space codes
show_columns_postgres stmt =
    let schema = trim_space stmt.database in
    let schema_predicate =
      if is_empty schema
      then codes "pg_table_is_visible(t.oid)"
      else codes "n.nspname = " ++ quote_string_literal schema in
    codes "SELECT "
    ++ show_columns_selected stmt.full
    ++ codes
        " FROM pg_attribute a JOIN pg_class t ON t.oid = a.attrelid JOIN pg_namespace n ON n.oid = t.relnamespace LEFT JOIN pg_attrdef ad ON ad.adrelid = a.attrelid AND ad.adnum = a.attnum"
    ++ (if stmt.full
        then codes
            " LEFT JOIN pg_collation coll ON coll.oid = a.attcollation AND a.attcollation <> 0"
        else [])
    ++ codes " WHERE t.relkind IN ('r', 'p', 'v', 'm', 'f') AND t.relname = "
    ++ quote_string_literal (trim_space (trim_space stmt.table))
    ++ codes " AND "
    ++ schema_predicate
    ++ first_of_clauses (
        (stmt.field, codes " AND a.attname = " ++ quote_string_literal stmt.field)
        ∷ (stmt.pattern, codes " AND a.attname ILIKE " ++ quote_string_literal stmt.pattern)
        ∷ [])
    ++ codes " AND a.attnum > 0 AND NOT a.attisdropped ORDER BY a.attnum"

unfoldable pub show_columns_mysql : ShowColumnsStatement → Text
unfolding quote_identifier_chain in_database first_of_clauses where_equals like_clause codes
show_columns_mysql stmt =
    (if stmt.full then codes "SHOW FULL " else codes "SHOW ")
    ++ codes "COLUMNS FROM "
    ++ quote_identifier_chain stmt.table mysql
    ++ in_database stmt.database
    ++ first_of_clauses (where_equals (codes "Field") stmt.field ∷ like_clause stmt.pattern ∷ [])

unfoldable pub render_show_columns : ShowColumnsStatement → Dialect → Outcome Text
unfolding show_columns_postgres show_columns_mysql
render_show_columns stmt postgres = ok (show_columns_postgres stmt)
render_show_columns stmt mysql = ok (show_columns_mysql stmt)
render_show_columns stmt sqlite = err unsupported_show_target
render_show_columns stmt oracle = err unsupported_show_target
render_show_columns stmt (other _) = err unsupported_show_target
