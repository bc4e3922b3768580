-- ===== src/Render/Show/TableStatus.antt =====
-- renderShowTableStatus of internal/render/render.go.
use unique_dialect.Base.{[], ◌∷◌, ◌++◌, if◌then◌else◌}
use unique_dialect.Dialect.{Dialect, mysql, postgres, sqlite, oracle, other}
use unique_dialect.Outcome.{Outcome, ok, err, unsupported_show_target}
use unique_dialect.Render.Quote.{quote_string_literal, quote_identifier_chain}
use unique_dialect.Render.Show.Clauses.{in_database, where_equals, where_like, first_of_clauses}
use unique_dialect.Text.{Text, codes, trim_space, is_empty}
use unique_dialect.Ir.{ShowTableStatusStatement}

unfoldable pub render_show_table_status_pattern : Text → Text
unfolding quote_string_literal codes
render_show_table_status_pattern pattern =
    if is_empty pattern then [] else codes " AND c.relname ILIKE " ++ quote_string_literal pattern

unfoldable pub render_show_table_status_name : Text → Text
unfolding quote_string_literal codes
render_show_table_status_name name =
    if is_empty name then [] else codes " AND c.relname = " ++ quote_string_literal name

unfoldable pub render_show_table_status_comment : Text → Text
unfolding quote_string_literal codes
render_show_table_status_comment comment =
    if is_empty comment
    then []
    else codes " AND COALESCE(obj_description(c.oid, 'pg_class'), '') = "
      ++ quote_string_literal comment

unfoldable pub render_show_table_status_engine : Text → Text
unfolding quote_string_literal codes
render_show_table_status_engine engine =
    if is_empty engine
    then []
    else codes " AND COALESCE(am.amname, 'heap') = " ++ quote_string_literal engine

unfoldable pub table_status_postgres : ShowTableStatusStatement → Text
unfolding quote_identifier_chain quote_string_literal trim_space render_show_table_status_pattern
    render_show_table_status_name render_show_table_status_comment render_show_table_status_engine
    codes
table_status_postgres stmt =
    let schema_predicate =
      if is_empty (trim_space stmt.database)
      then codes "pg_table_is_visible(c.oid)"
      else codes "n.nspname = " ++ quote_string_literal (trim_space stmt.database) in
    codes "SELECT c.relname AS "
    ++ quote_identifier_chain (codes "Name") postgres
    ++ codes ", COALESCE(am.amname, 'heap') AS "
    ++ quote_identifier_chain (codes "Engine") postgres
    ++ codes ", NULL AS "
    ++ quote_identifier_chain (codes "Version") postgres
    ++ codes ", NULL AS "
    ++ quote_identifier_chain (codes "Row_format") postgres
    ++ codes ", CASE WHEN c.reltuples < 0 THEN NULL ELSE c.reltuples::bigint END AS "
    ++ quote_identifier_chain (codes "Rows") postgres
    ++ codes
        ", CASE WHEN c.reltuples > 0 THEN pg_relation_size(c.oid) / NULLIF(c.reltuples::bigint, 0) ELSE NULL END AS "
    ++ quote_identifier_chain (codes "Avg_row_length") postgres
    ++ codes ", pg_relation_size(c.oid) AS "
    ++ quote_identifier_chain (codes "Data_length") postgres
    ++ codes ", NULL AS "
    ++ quote_identifier_chain (codes "Max_data_length") postgres
    ++ codes ", pg_indexes_size(c.oid) AS "
    ++ quote_identifier_chain (codes "Index_length") postgres
    ++ codes ", NULL AS "
    ++ quote_identifier_chain (codes "Data_free") postgres
    ++ codes ", NULL AS "
    ++ quote_identifier_chain (codes "Auto_increment") postgres
    ++ codes ", NULL AS "
    ++ quote_identifier_chain (codes "Create_time") postgres
    ++ codes ", NULL AS "
    ++ quote_identifier_chain (codes "Update_time") postgres
    ++ codes ", NULL AS "
    ++ quote_identifier_chain (codes "Check_time") postgres
    ++ codes ", NULL AS "
    ++ quote_identifier_chain (codes "Collation") postgres
    ++ codes ", NULL AS "
    ++ quote_identifier_chain (codes "Checksum") postgres
    ++ codes ", NULL AS "
    ++ quote_identifier_chain (codes "Create_options") postgres
    ++ codes ", COALESCE(obj_description(c.oid, 'pg_class'), '') AS "
    ++ quote_identifier_chain (codes "Comment") postgres
    ++ codes
        " FROM pg_class c JOIN pg_namespace n ON n.oid = c.relnamespace LEFT JOIN pg_am am ON am.oid = c.relam WHERE c.relkind IN ('r', 'p') AND "
    ++ schema_predicate
    ++ render_show_table_status_name stmt.name
    ++ render_show_table_status_comment stmt.comment
    ++ render_show_table_status_engine stmt.engine
    ++ render_show_table_status_pattern stmt.pattern
    ++ codes " ORDER BY c.relname"

unfoldable pub table_status_mysql : ShowTableStatusStatement → Text
unfolding in_database first_of_clauses where_equals where_like codes
table_status_mysql stmt =
    codes "SHOW TABLE STATUS"
    ++ in_database stmt.database
    ++ first_of_clauses (
        where_equals (codes "Name") stmt.name
        ∷ where_equals (codes "Comment") stmt.comment
        ∷ where_equals (codes "Engine") stmt.engine
        ∷ [])
    ++ where_like stmt.pattern

unfoldable pub render_show_table_status : ShowTableStatusStatement → Dialect → Outcome Text
unfolding table_status_postgres table_status_mysql
render_show_table_status stmt postgres = ok (table_status_postgres stmt)
render_show_table_status stmt mysql = ok (table_status_mysql stmt)
render_show_table_status stmt sqlite = err unsupported_show_target
render_show_table_status stmt oracle = err unsupported_show_target
render_show_table_status stmt (other _) = err unsupported_show_target
