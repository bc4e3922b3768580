-- ===== src/Parser.antt =====
-- internal/parser: the result types of types.go, the classification of legacy_classify.go, and
-- ParseOne and ParseMulti of parser.go for the dialects that need no TiDB parser.
pub mod Classify
pub mod Specs
pub mod Inline
pub mod Extensions
pub mod Multi
use unique_dialect.Base.{Bool, true, false, List, [], ◌∷◌, map}
use unique_dialect.Outcome.{Outcome, ok, err, ◌>>=◌, expected_single_statement}
use unique_dialect.Syntax
use unique_dialect.Syntax.Postgres
use unique_dialect.Text.{Text}
use unique_dialect.Tidb.{StmtNode}

pub data StatementKind : Type 0 where
  select insert update delete begin commit rollback savepoint release_savepoint : StatementKind
  with_query set_op set_kind create_table create_database create_view explain : StatementKind
  alter_table drop_database drop_table drop_view show use_database create_index drop_index :
      StatementKind
  truncate rename_table other_ddl other_dml other : StatementKind

pub data SupportStatus : Type 0 where
  supported recognized_unadapted unsupported : SupportStatus

-- The parse result, with its native statement; the name of that statement's Go type is left out.
pub record ParsedStatement (N : Type 0) : Type 0 where
  pub sql : Text
  pub source_dialect : Text
  pub kind : StatementKind
  pub status : SupportStatus
  pub native : N

-- MariaDBDropForeignKeyStmt of extensions.go.
pub record MariaDbDropForeignKeyStmt : Type 0 where
  pub table : Text
  pub name : Text
  pub if_exists : Bool

-- The native statements of all the parsers.
pub data NativeAst : Type 0 where
  legacy_stmt : Syntax.Statement → NativeAst
  drop_foreign_key_stmt : MariaDbDropForeignKeyStmt → NativeAst
  tidb_node : StmtNode → NativeAst

unfoldable pub classify_legacy : Syntax.Statement → StatementKind × SupportStatus
classify_legacy (Syntax.select _) = (StatementKind.select, supported)
classify_legacy (Syntax.insert _) = (StatementKind.insert, supported)
classify_legacy (Syntax.update _) = (StatementKind.update, supported)
classify_legacy (Syntax.delete _) = (StatementKind.delete, supported)
classify_legacy (Syntax.raw _) = (StatementKind.other, unsupported)

unfoldable pub wrap_legacy_one : Text → Text → Syntax.Statement → ParsedStatement Syntax.Statement
unfolding classify_legacy
wrap_legacy_one sql dialect node = record {
  sql = sql;
  source_dialect = dialect;
  kind = (classify_legacy node).0;
  status = (classify_legacy node).1;
  native = node;
}

unfoldable pub wrap_legacy :
    Text → Text → List Syntax.Statement → List (ParsedStatement Syntax.Statement)
unfolding wrap_legacy_one
wrap_legacy sql dialect nodes = map (wrap_legacy_one sql dialect) nodes

-- ParsePostgresStatements of internal/parser/adapter/postgres.go.
unfoldable pub parse_postgres_statements : Text → Outcome (List Syntax.Statement)
unfolding Postgres.parse
parse_postgres_statements sql = do stmt ← Postgres.parse sql; ok (stmt ∷ [])

-- ParseMulti for the dialect postgres.
unfoldable pub parse_multi_postgres :
    Text → Text → Outcome (List (ParsedStatement Syntax.Statement))
unfolding parse_postgres_statements wrap_legacy
parse_multi_postgres sql dialect = do
  nodes ← parse_postgres_statements sql
  ok (wrap_legacy sql dialect nodes)

-- The check of ParseOne.
unfoldable pub single : {N : Type 0} → List (ParsedStatement N) → Outcome (ParsedStatement N)
single [] = err expected_single_statement
single (p ∷ []) = ok p
single (p ∷ q ∷ ps) = err expected_single_statement

-- shouldBlockRecognizedUnadapted of translator.go.
abbrev pub blocks_kind : StatementKind → Bool
blocks_kind with_query = true
blocks_kind set_op = true
blocks_kind set_kind = true
blocks_kind show = true
blocks_kind begin = true
blocks_kind commit = true
blocks_kind rollback = true
blocks_kind _ = false

unfoldable pub should_block : StatementKind → SupportStatus → Bool
should_block kind recognized_unadapted = blocks_kind kind
should_block kind supported = false
should_block kind unsupported = false
