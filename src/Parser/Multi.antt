-- ===== src/Parser/Multi.antt =====
-- ParseMulti and ParseOne of internal/parser/parser.go for every dialect, over the TiDB parser.
use unique_dialect.Base.{Bool, ◌||◌, List, Option, map, String, if◌then◌else◌, choose}
use unique_dialect.Outcome.{Outcome, ok, err, ◌>>=◌, syntax_error, unsupported_dialect}
use unique_dialect.Parser.Extensions.{wrap_tidb, parse_mariadb_extension_statement}
use unique_dialect.Parser.{ParsedStatement, NativeAst, legacy_stmt, parse_multi_postgres, single}
use unique_dialect.Syntax
use unique_dialect.Text.{Text, codes, text_eq, trim_space, to_lower, lower_byte}
use unique_dialect.Tidb.{StmtNode}

abbrev pub as_native : ParsedStatement Syntax.Statement → ParsedStatement NativeAst
as_native p = record {
  sql = p.sql;
  source_dialect = p.source_dialect;
  kind = p.kind;
  status = p.status;
  native = legacy_stmt p.native;
}

abbrev pub is_dialect : Text → String → Bool
unfolding text_eq trim_space lower_byte codes
is_dialect dialect name = text_eq (to_lower (trim_space dialect)) (codes name)

module _ (parse_tidb : Text → Option (List StmtNode)) where
  -- The case of the dialects that the TiDB parser reads.
  unfoldable pub parse_multi_tidb : Text → Text → Outcome (List (ParsedStatement NativeAst))
  unfolding wrap_tidb parse_mariadb_extension_statement
  parse_multi_tidb sql dialect =
      choose (parse_tidb sql)
        (choose (parse_mariadb_extension_statement parse_tidb sql dialect) (err syntax_error)
          λ extended. ok extended)
        λ nodes. ok (wrap_tidb sql dialect nodes)

  unfoldable pub parse_multi : Text → Text → Outcome (List (ParsedStatement NativeAst))
  unfolding parse_multi_tidb parse_multi_postgres text_eq trim_space lower_byte codes
  parse_multi sql dialect =
      let legacy = parse_multi_postgres sql dialect >>= λ ps. ok (map as_native ps) in
      if is_dialect dialect "mysql" || (is_dialect dialect "sqlite" || is_dialect dialect "oracle")
      then parse_multi_tidb sql dialect
      else if is_dialect dialect "postgres"
      then legacy
      else err unsupported_dialect

  unfoldable pub parse_one : Text → Text → Outcome (ParsedStatement NativeAst)
  unfolding parse_multi single
  parse_one sql dialect = do statements ← parse_multi sql dialect; single statements
