-- ===== src/Tests/Examples/Tidb.antt =====
-- The theorems on the statements that the TiDB parser reads, at concrete inputs.
use unique_dialect.Base.{false, List, [], ◌∷◌, Option, none, some, ◌≡◌, refl, arith, if◌then◌else◌}
use unique_dialect.Dialect.{mysql, postgres, sqlite, same_dialect}
use unique_dialect.Normalize.Alter.Gather.{normalize_tidb_alter_table}
use unique_dialect.Normalize.Alter.Order.{
  operations, clause_operations, or_raw, normalize_tidb_alter_table-operations,
}
use unique_dialect.Normalize.Parsed.{node_statement}
use unique_dialect.Outcome.{ok, ◌>>=◌, Returns}
use unique_dialect.Parser.Classify.{classify_tidb_statement}
use unique_dialect.Syntax.Clauses.{starts}
use unique_dialect.Syntax.Mysql
use unique_dialect.Syntax.Scan.{trim_statement}
use unique_dialect.Text.{Text, codes, trim_space}
use unique_dialect.Tidb
use unique_dialect.Tidb.{AlterTableType, ShowStmt, ShowType, StmtNode}
use unique_dialect.Translator.Sql.Legacy.{translate_sql-legacy}
use unique_dialect.Translator.Sql.Laws.{strict_result, translate_sql-strict}
use unique_dialect.Translator.Sql.Safe.{translate_sql-Returns}
use unique_dialect.Translator.Sql.{translate_sql, translate_by_legacy}

abbrev users : Tidb.TableName
users = record { schema = []; name = codes "users" }

abbrev clause : AlterTableType → Text → Option Tidb.AlterTableSpec
clause tp name = some (record {
  tp = tp;
  name = name;
  if_exists = false;
  constraint = none;
  new_columns = [];
  has_new_constraints = false;
  old_column_name = some name;
  position = none;
})

-- DROP COLUMN a, DROP INDEX i, DROP COLUMN b.
abbrev three_clauses : List (Option Tidb.AlterTableSpec)
three_clauses =
    clause AlterTableType.drop_column (codes "a")
    ∷ clause AlterTableType.drop_index (codes "i")
    ∷ clause AlterTableType.drop_column (codes "b")
    ∷ []

normalize_tidb_alter_table-operations_example :
    (normalize_tidb_alter_table [] (record { table = some users; specs = three_clauses }) >>= λ r.
    ok (operations r))
    ≡ (clause_operations (trim_space users.name) three_clauses >>= λ o. ok (or_raw [] o))
normalize_tidb_alter_table-operations_example =
    normalize_tidb_alter_table-operations [] users three_clauses

abbrev show_tables : ShowStmt
show_tables = record {
  tp = ShowType.tables;
  db_name = [];
  table = none;
  full = false;
  extended = false;
  if_not_exists = false;
  global_scope = false;
  pattern = none;
  where_expr = none;
}

-- A parser that reads every text as one statement.
abbrev reads : StmtNode → Text → Option (List StmtNode)
reads node sql = some (node ∷ [])

translate_sql-strict_example :
    translate_sql (reads (StmtNode.show show_tables)) mysql postgres (codes "SHOW TABLES") ≡ (
      if same_dialect mysql postgres
      then ok (codes "SHOW TABLES")
      else strict_result mysql postgres
          (classify_tidb_statement (codes "SHOW TABLES") (StmtNode.show show_tables)).1
          (node_statement (codes "SHOW TABLES") (StmtNode.show show_tables)))
translate_sql-strict_example =
    translate_sql-strict (reads (StmtNode.show show_tables)) mysql postgres (codes "SHOW TABLES")
      (StmtNode.show show_tables) tt tt refl

translate_sql-legacy_example :
    translate_sql (reads StmtNode.other) postgres mysql (codes "SELECT a FROM t") ≡ (
      if same_dialect postgres mysql
      then ok (codes "SELECT a FROM t")
      else translate_by_legacy postgres mysql (codes "SELECT a FROM t"))
translate_sql-legacy_example =
    translate_sql-legacy (reads StmtNode.other) mysql (codes "SELECT a FROM t")

translate_sql-Returns_example :
    Returns (translate_sql (reads StmtNode.delete) sqlite postgres (codes "DELETE FROM t WHERE ("))
unfolding trim_statement codes starts Mysql.syntax_trim
translate_sql-Returns_example =
    translate_sql-Returns (reads StmtNode.delete) sqlite postgres (codes "DELETE FROM t WHERE (")
      StmtNode.delete tt refl (omega arith) refl refl
