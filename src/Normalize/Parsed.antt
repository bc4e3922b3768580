-- ===== src/Normalize/Parsed.antt =====
-- internal/normalize/parsed_statement.go: ParsedStatement, over the native statements of all parsers.
use unique_dialect.Base.{[], ◌∷◌, if◌then◌else◌}
use unique_dialect.Ir
use unique_dialect.Normalize.Alter.Gather.{normalize_tidb_alter_table}
use unique_dialect.Normalize.Alter.{blank_spec}
use unique_dialect.Normalize.Columns.{normalize_tidb_create_index, normalize_tidb_drop_index}
use unique_dialect.Normalize.Dml.{
  normalize_tidb_raw, normalize_tidb_select, normalize_tidb_insert, normalize_tidb_update,
  normalize_tidb_delete,
}
use unique_dialect.Normalize.Set.{
  normalize_tidb_set, normalize_tidb_savepoint, normalize_tidb_release_savepoint,
  normalize_tidb_rollback,
}
use unique_dialect.Normalize.Show.{normalize_tidb_show}
use unique_dialect.Normalize.Tables.{normalize_tidb_create_table, normalize_tidb_rename_table}
use unique_dialect.Normalize.{normalize}
use unique_dialect.Outcome.{Outcome, ok, err, ◌>>=◌, unsupported_parsed_statement}
use unique_dialect.Parser.{
  ParsedStatement, NativeAst, MariaDbDropForeignKeyStmt, legacy_stmt, drop_foreign_key_stmt,
  tidb_node,
}
use unique_dialect.Text.{Text}
use unique_dialect.Tidb.{StmtNode}

abbrev pub one : Outcome Ir.Statement → Outcome Ir.Rendered
one o = o >>= λ s. ok (Ir.single s)

abbrev pub raw_of : Text → Outcome Ir.Rendered
unfolding normalize_tidb_raw
raw_of sql = ok (Ir.single (normalize_tidb_raw sql))

unfoldable pub drop_foreign_key_of : MariaDbDropForeignKeyStmt → Ir.Statement
drop_foreign_key_of s = Ir.alter_table (record {
  name = s.table;
  specs = record (blank_spec Ir.drop_foreign_key) { name = s.name; if_exists = s.if_exists } ∷ [];
})

unfoldable pub node_statement : Text → StmtNode → Outcome Ir.Rendered
unfolding normalize_tidb_raw normalize_tidb_select normalize_tidb_set normalize_tidb_show
    normalize_tidb_create_table normalize_tidb_rename_table normalize_tidb_alter_table
    normalize_tidb_create_index normalize_tidb_drop_index normalize_tidb_rollback
    normalize_tidb_savepoint normalize_tidb_release_savepoint normalize_tidb_insert
    normalize_tidb_update normalize_tidb_delete
node_statement sql (StmtNode.select s) =
    if s.has_with then raw_of sql else one (normalize_tidb_select sql s)
node_statement sql StmtNode.set_opr = raw_of sql
node_statement sql (StmtNode.set vs) = one (normalize_tidb_set sql vs)
node_statement sql StmtNode.explain = raw_of sql
node_statement sql (StmtNode.show s) = one (normalize_tidb_show s)
node_statement sql (StmtNode.create_table s) = ok (Ir.single (normalize_tidb_create_table s))
node_statement sql StmtNode.create_database = raw_of sql
node_statement sql (StmtNode.rename_table ts) = ok (normalize_tidb_rename_table sql ts)
node_statement sql StmtNode.create_view = raw_of sql
node_statement sql (StmtNode.alter_table s) = normalize_tidb_alter_table sql s
node_statement sql (StmtNode.drop_table is_view) = raw_of sql
node_statement sql StmtNode.drop_database = raw_of sql
node_statement sql StmtNode.truncate_table = raw_of sql
node_statement sql (StmtNode.create_index s) = ok (Ir.single (normalize_tidb_create_index s))
node_statement sql (StmtNode.drop_index s) = ok (Ir.single (normalize_tidb_drop_index s))
node_statement sql (StmtNode.begin b) = raw_of sql
node_statement sql (StmtNode.commit default) = raw_of sql
node_statement sql (StmtNode.rollback r) = ok (Ir.single (normalize_tidb_rollback r sql))
node_statement sql (StmtNode.savepoint name) = one (normalize_tidb_savepoint name)
node_statement sql (StmtNode.release_savepoint name) = one (normalize_tidb_release_savepoint name)
node_statement sql (StmtNode.use_db name) =
    ok (Ir.single (Ir.use_database (record { database = name })))
node_statement sql (StmtNode.insert dup) = one (normalize_tidb_insert sql dup)
node_statement sql StmtNode.update = one (normalize_tidb_update sql)
node_statement sql StmtNode.delete = one (normalize_tidb_delete sql)
node_statement sql StmtNode.other = err unsupported_parsed_statement

unfoldable pub native_statement : Text → NativeAst → Outcome Ir.Rendered
unfolding normalize drop_foreign_key_of node_statement
native_statement sql (legacy_stmt s) = ok (Ir.single (normalize s))
native_statement sql (drop_foreign_key_stmt s) = ok (Ir.single (drop_foreign_key_of s))
native_statement sql (tidb_node node) = node_statement sql node

unfoldable pub parsed_statement : ParsedStatement NativeAst → Outcome Ir.Rendered
unfolding native_statement
parsed_statement p = native_statement p.sql p.native
