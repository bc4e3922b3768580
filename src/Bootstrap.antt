-- ===== src/Bootstrap.antt =====
-- bootstrap.go: the functions and triggers that stand in for MySQL's ON UPDATE in PostgreSQL.
pub mod Regexp
pub mod Names
use unique_dialect.Base.{
  Bool, true, false, not, ◌&&◌, List, [], ◌∷◌, ◌++◌, Option, none, some, if◌then◌else◌, choose,
}
use unique_dialect.Bootstrap.Regexp.{find_create_table, find_on_update_columns}
use unique_dialect.Dialect.{Dialect, mysql, postgres, dialect_text}
use unique_dialect.Normalize.Nodes.{restore_node}
use unique_dialect.Outcome.{Outcome, ok, err, panic, ◌>>=◌}
use unique_dialect.Parser.Multi.{parse_one}
use unique_dialect.Parser.{ParsedStatement, NativeAst, tidb_node}
use unique_dialect.Text.{
  Text, codes, join, is_empty, equal_fold, text_eq, to_lower, lower_byte, trim_space,
}
use unique_dialect.Tidb.{StmtNode, Expr, node_text_of}
use unique_dialect.Tidb

pub data BootstrapKind : Type 0 where
  function_kind trigger_kind : BootstrapKind

pub record BootstrapArtifact : Type 0 where
  pub name : Text
  pub kind : BootstrapKind
  pub sql : Text
  pub idempotent : Bool

pub record BootstrapOptions : Type 0 where
  pub input_dialect : Dialect
  pub target_dialect : Dialect
  pub enabled : Bool

abbrev pub function_name : Text → Text → Text
unfolding codes
function_name table column =
    codes "ud_bootstrap_" ++ table ++ codes "_" ++ column ++ codes "_on_update"

abbrev pub trigger_name : Text → Text → Text
unfolding codes
trigger_name table column =
    codes "ud_bootstrap_" ++ table ++ codes "_" ++ column ++ codes "_on_update_trg"

unfoldable pub function_sql : Text → Text → Text
unfolding codes join
function_sql name column = join (10 ∷ []) (
    (codes "CREATE OR REPLACE FUNCTION " ++ name ++ codes "()")
    ∷ codes "RETURNS TRIGGER AS $$"
    ∷ codes "BEGIN"
    ∷ (codes "    NEW." ++ column ++ codes " = CURRENT_TIMESTAMP;")
    ∷ codes "    RETURN NEW;"
    ∷ codes "END;"
    ∷ codes "$$ LANGUAGE plpgsql"
    ∷ [])

unfoldable pub trigger_sql : Text → Text → Text → Text
unfolding codes join
trigger_sql trigger table function = join (10 ∷ []) (
    (codes "DROP TRIGGER IF EXISTS " ++ trigger ++ codes " ON " ++ table ++ codes ";")
    ∷ (codes "CREATE TRIGGER " ++ trigger)
    ∷ (codes "BEFORE UPDATE ON " ++ table)
    ∷ codes "FOR EACH ROW"
    ∷ (codes "EXECUTE FUNCTION " ++ function ++ codes "()")
    ∷ [])

unfoldable pub build_on_update_artifacts : Text → List Text → List BootstrapArtifact
unfolding function_name trigger_name function_sql trigger_sql
build_on_update_artifacts table [] = []
build_on_update_artifacts table (column ∷ columns) =
    (record {
      name = function_name table column;
      kind = function_kind;
      sql = function_sql (function_name table column) column;
      idempotent = true;
    })
    ∷ (record {
      name = trigger_name table column;
      kind = trigger_kind;
      sql = trigger_sql (trigger_name table column) table (function_name table column);
      idempotent = true;
    })
    ∷ build_on_update_artifacts table columns

unfoldable pub is_current_timestamp_expr : Expr → Bool
unfolding text_eq lower_byte codes trim_space
is_current_timestamp_expr (Tidb.call t name) = equal_fold name (codes "CURRENT_TIMESTAMP")
is_current_timestamp_expr e =
    equal_fold (trim_space (restore_node (node_text_of e))) (codes "CURRENT_TIMESTAMP")

abbrev pub is_on_update : Tidb.ColumnOptionType → Bool
is_on_update Tidb.on_update = true
is_on_update _ = false

-- Some option of a column is ON UPDATE CURRENT_TIMESTAMP.
unfoldable pub updates_timestamp : List (Option Tidb.ColumnOption) → Bool
unfolding is_current_timestamp_expr
updates_timestamp [] = false
updates_timestamp (none ∷ options) = updates_timestamp options
updates_timestamp (some o ∷ options) =
    if is_on_update o.tp && is_current_timestamp_expr o.expr
    then true
    else updates_timestamp options

abbrev pub column_name : Tidb.ColumnDef → Text → List Text → List Text
unfolding updates_timestamp lower_byte
column_name c name columns =
    if updates_timestamp c.options then to_lower name ∷ columns else columns

unfoldable pub on_update_columns : List (Option Tidb.ColumnDef) → List Text
unfolding column_name
on_update_columns [] = []
on_update_columns (none ∷ cols) = on_update_columns cols
on_update_columns (some c ∷ cols) =
    choose c.name (on_update_columns cols) λ name. column_name c name (on_update_columns cols)

-- The artifacts of a table; without its name or columns there are none.
unfoldable pub table_artifacts : Text → List Text → List BootstrapArtifact
unfolding build_on_update_artifacts
table_artifacts [] columns = []
table_artifacts (c ∷ table) columns = build_on_update_artifacts (c ∷ table) columns

-- What planMySQLToPostgresFromAST finds in a statement; `none` if it does not match.
unfoldable pub ast_artifacts : NativeAst → Option (List BootstrapArtifact)
unfolding table_artifacts on_update_columns lower_byte
ast_artifacts (tidb_node (Tidb.create_table stmt)) =
    choose stmt.table none
      λ t. some (table_artifacts (to_lower t.name) (on_update_columns stmt.cols))
ast_artifacts _ = none

-- The part of planMySQLToPostgres that works without a parse.
unfoldable pub pattern_artifacts : Text → List BootstrapArtifact
unfolding find_create_table find_on_update_columns build_on_update_artifacts lower_byte
pattern_artifacts sql =
    choose (find_create_table sql) []
      λ table. build_on_update_artifacts (to_lower table) (find_on_update_columns sql)

unfoldable pub plan_parsed :
    Text → Outcome (ParsedStatement NativeAst) → Outcome (List BootstrapArtifact)
unfolding ast_artifacts pattern_artifacts
plan_parsed sql (ok parsed) =
    ok (choose (ast_artifacts parsed.native) (pattern_artifacts sql) λ found. found)
plan_parsed sql (err e) = ok (pattern_artifacts sql)
plan_parsed sql panic = panic

abbrev pub is_mysql_to_postgres : Dialect → Dialect → Bool
is_mysql_to_postgres mysql postgres = true
is_mysql_to_postgres _ _ = false

unfoldable pub plan :
    (Text → Option (List StmtNode)) → BootstrapOptions → Text → Outcome (List BootstrapArtifact)
unfolding plan_parsed parse_one dialect_text
plan parse_tidb opts sql =
    if not opts.enabled
    then ok []
    else if is_mysql_to_postgres opts.input_dialect opts.target_dialect
    then plan_parsed sql (parse_one parse_tidb sql (dialect_text opts.input_dialect))
    else ok []
