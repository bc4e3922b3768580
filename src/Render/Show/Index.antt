-- ===== src/Render/Show/Index.antt =====
-- renderShowIndex of internal/render/render.go.
use unique_dialect.Base.{[], ◌∷◌, ◌++◌, if◌then◌else◌}
use unique_dialect.Dialect.{Dialect, mysql, postgres, sqlite, oracle, other}
use unique_dialect.Outcome.{Outcome, ok, err, unsupported_show_target}
use unique_dialect.Render.Quote.{quote_string_literal, quote_identifier_chain}
use unique_dialect.Render.Show.Clauses.{in_database, where_equals, where_number, first_of_clauses}
use unique_dialect.Text.{Text, codes, trim_space, is_empty, text_eq}
use unique_dialect.Ir.{ShowIndexStatement}

unfoldable pub render_show_index_key_name : Text → Text
unfolding trim_space quote_string_literal codes
render_show_index_key_name key_name =
    if is_empty (trim_space key_name)
    then []
    else codes " AND i.relname = " ++ quote_string_literal (trim_space key_name)

unfoldable pub render_show_index_column : Text → Text
unfolding trim_space quote_string_literal codes
render_show_index_column column =
    if is_empty (trim_space column)
    then []
    else codes " AND a.attname = " ++ quote_string_literal (trim_space column)

unfoldable pub render_show_index_type : Text → Text
unfolding trim_space quote_string_literal codes
render_show_index_type index_type =
    if is_empty (trim_space index_type)
    then []
    else codes " AND lower(am.amname) = lower("
      ++ quote_string_literal (trim_space index_type)
      ++ codes ")"

unfoldable pub render_show_index_non_unique : Text → Text
unfolding trim_space text_eq codes
render_show_index_non_unique non_unique =
    let value = trim_space non_unique in
    if text_eq value (codes "0")
    then codes " AND ix.indisunique"
    else if text_eq value (codes "1")
    then codes " AND NOT ix.indisunique"
    else []

unfoldable pub render_show_index_seq_in_index : Text → Text
unfolding trim_space codes
render_show_index_seq_in_index seq_in_index =
    if is_empty (trim_space seq_in_index)
    then []
    else codes " AND k.ordinality = " ++ trim_space seq_in_index

unfoldable pub show_index_postgres : ShowIndexStatement → Text
unfolding quote_identifier_chain quote_string_literal trim_space render_show_index_key_name
    render_show_index_column render_show_index_type render_show_index_non_unique
    render_show_index_seq_in_index codes
show_index_postgres stmt =
    let schema = trim_space stmt.database in
    let table = trim_space stmt.table in
    let visibility_predicate =
      if is_empty schema
      then codes "pg_table_is_visible(t.oid)"
      else codes "n.nspname = " ++ quote_string_literal schema in
    codes "SELECT t.relname AS "
    ++ quote_identifier_chain (codes "Table") postgres
    ++ codes ", CASE WHEN ix.indisunique THEN 0 ELSE 1 END AS "
    ++ quote_identifier_chain (codes "Non_unique") postgres
    ++ codes ", i.relname AS "
    ++ quote_identifier_chain (codes "Key_name") postgres
    ++ codes ", k.ordinality AS "
    ++ quote_identifier_chain (codes "Seq_in_index") postgres
    ++ codes ", CASE WHEN k.attnum = 0 THEN NULL ELSE a.attname END AS "
    ++ quote_identifier_chain (codes "Column_name") postgres
    ++ codes ", 'A' AS "
    ++ quote_identifier_chain (codes "Collation") postgres
    ++ codes ", NULL AS "
    ++ quote_identifier_chain (codes "Cardinality") postgres
    ++ codes ", NULL AS "
    ++ quote_identifier_chain (codes "Sub_part") postgres
    ++ codes ", NULL AS "
    ++ quote_identifier_chain (codes "Packed") postgres
    ++ codes ", CASE WHEN a.attnotnull THEN '' ELSE 'YES' END AS "
    ++ quote_identifier_chain (codes "Null") postgres
    ++ codes ", am.amname AS "
    ++ quote_identifier_chain (codes "Index_type") postgres
    ++ codes ", '' AS "
    ++ quote_identifier_chain (codes "Comment") postgres
    ++ codes ", '' AS "
    ++ quote_identifier_chain (codes "Index_comment") postgres
    ++ codes ", 'YES' AS "
    ++ quote_identifier_chain (codes "Visible") postgres
    ++ codes
        ", CASE WHEN k.attnum = 0 THEN pg_get_indexdef(ix.indexrelid, k.ordinality, true) ELSE NULL END AS "
    ++ quote_identifier_chain (codes "Expression") postgres
    ++ codes
        " FROM pg_index ix JOIN pg_class t ON t.oid = ix.indrelid JOIN pg_class i ON i.oid = ix.indexrelid JOIN pg_am am ON am.oid = i.relam JOIN pg_namespace n ON n.oid = t.relnamespace JOIN LATERAL unnest(string_to_array(ix.indkey::text, ' ')::smallint[]) WITH ORDINALITY AS k(attnum, ordinality) ON TRUE LEFT JOIN pg_attribute a ON a.attrelid = t.oid AND a.attnum = k.attnum WHERE t.relkind IN ('r', 'p') AND t.relname = "
    ++ quote_string_literal (trim_space table)
    ++ codes " AND "
    ++ visibility_predicate
    ++ render_show_index_key_name stmt.key_name
    ++ render_show_index_column stmt.column
    ++ render_show_index_type stmt.index_type
    ++ render_show_index_non_unique stmt.non_unique
    ++ render_show_index_seq_in_index stmt.seq_in_index
    ++ codes " AND k.ordinality <= ix.indnkeyatts"
    ++ codes " ORDER BY i.relname, k.ordinality"

unfoldable pub show_index_mysql : ShowIndexStatement → Text
unfolding quote_identifier_chain in_database first_of_clauses where_equals codes
show_index_mysql stmt =
    codes "SHOW INDEX FROM "
    ++ quote_identifier_chain stmt.table mysql
    ++ in_database stmt.database
    ++ first_of_clauses (
        where_equals (codes "Key_name") stmt.key_name
        ∷ where_equals (codes "Column_name") stmt.column
        ∷ where_equals (codes "Index_type") stmt.index_type
        ∷ where_number (codes "Non_unique") stmt.non_unique
        ∷ where_number (codes "Seq_in_index") stmt.seq_in_index
        ∷ [])

unfoldable pub render_show_index : ShowIndexStatement → Dialect → Outcome Text
unfolding show_index_postgres show_index_mysql
render_show_index stmt postgres = ok (show_index_postgres stmt)
render_show_index stmt mysql = ok (show_index_mysql stmt)
render_show_index stmt sqlite = err unsupported_show_target
render_show_index stmt oracle = err unsupported_show_target
render_show_index stmt (other _) = err unsupported_show_target
