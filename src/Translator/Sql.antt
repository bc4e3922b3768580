-- ===== src/Translator/Sql.antt =====
-- translateSQL and parseLegacy of translator.go for every dialect, over the TiDB parser.
pub mod Laws
pub mod Legacy
pub mod Safe
use unique_dialect.Base.{Bool, true, false, ◌||◌, ◌&&◌, List, Option, if◌then◌else◌}
use unique_dialect.Dialect.{
  Dialect, mysql, postgres, sqlite, oracle, other, dialect_text, same_dialect,
}
use unique_dialect.Ir
use unique_dialect.Normalize.Parsed.{parsed_statement}
use unique_dialect.Normalize.{normalize}
use unique_dialect.Outcome.{
  Outcome, ok, err, panic, Failure, ◌>>=◌, parser_adaptation, unsupported_dialect,
}
use unique_dialect.Parser.Multi.{parse_one}
use unique_dialect.Parser.{
  ParsedStatement, StatementKind, SupportStatus, NativeAst, supported, should_block,
}
use unique_dialect.Render.{render}
use unique_dialect.Syntax
use unique_dialect.Syntax.Mysql
use unique_dialect.Syntax.Postgres
use unique_dialect.Text.{Text}
use unique_dialect.Tidb.{StmtNode}

unfoldable pub parse_legacy : Dialect → Text → Outcome Syntax.Statement
unfolding Mysql.parse Postgres.parse
parse_legacy mysql sql = Mysql.parse sql
parse_legacy postgres sql = Postgres.parse sql
parse_legacy sqlite sql = Mysql.parse sql
parse_legacy oracle sql = Mysql.parse sql
parse_legacy (other d) sql = err unsupported_dialect

-- The second half of translateSQL.
unfoldable pub translate_by_legacy : Dialect → Dialect → Text → Outcome Text
unfolding parse_legacy normalize render
translate_by_legacy from to sql = do
  stmt ← parse_legacy from sql
  render (Ir.single (normalize stmt)) from to

-- The kinds whose failed normalization is an error.
abbrev pub is_strict_kind : StatementKind → Bool
is_strict_kind StatementKind.show = true
is_strict_kind StatementKind.set_kind = true
is_strict_kind _ = false

abbrev pub is_supported : SupportStatus → Bool
is_supported supported = true
is_supported _ = false

unfoldable pub translate_normalized :
    Dialect → Dialect → Text → ParsedStatement NativeAst → Outcome Ir.Rendered → Outcome Text
unfolding translate_by_legacy render
translate_normalized from to sql p (ok r) = render r from to
translate_normalized from to sql p (err e) =
    if is_strict_kind p.kind && is_supported p.status
    then err e
    else translate_by_legacy from to sql
translate_normalized from to sql p panic = panic

unfoldable pub translate_parse :
    Dialect → Dialect → Text → Outcome (ParsedStatement NativeAst) → Outcome Text
unfolding translate_by_legacy translate_normalized should_block parsed_statement
translate_parse from to sql (ok p) =
    if should_block p.kind p.status
    then err parser_adaptation
    else translate_normalized from to sql p (parsed_statement p)
translate_parse from to sql (err e) = translate_by_legacy from to sql
translate_parse from to sql panic = panic

unfoldable pub translate_sql :
    (Text → Option (List StmtNode)) → Dialect → Dialect → Text → Outcome Text
unfolding same_dialect parse_one dialect_text translate_parse
translate_sql parse_tidb from to sql =
    if same_dialect from to
    then ok sql
    else translate_parse from to sql (parse_one parse_tidb sql (dialect_text from))
