-- ===== src/Translator/Sql/Safe.antt =====
-- translateSQL of translator.go comes back from the texts that the TiDB parser reads, SELECT aside.
use unique_dialect.Base.{false, ◌&&◌, List, [], ◌∷◌, Option, some, ◌≡◌, if-ind}
use unique_dialect.Dialect.{
  Dialect, mysql, postgres, sqlite, oracle, other, dialect_text, same_dialect,
}
use unique_dialect.Ir
use unique_dialect.Normalize.Parsed.{node_statement}
use unique_dialect.Normalize.Total.{NodeFits, node_statement-Returns}
use unique_dialect.Normalize.{normalize}
use unique_dialect.Outcome.{Outcome, ok, err, panic, Returns, >>=-Returns}
use unique_dialect.Parser.Classify.{classify_tidb_statement}
use unique_dialect.Parser.Extensions.{wrap_tidb_one}
use unique_dialect.Parser.{ParsedStatement, NativeAst, should_block}
use unique_dialect.Render.Verdict.{render-Returns}
use unique_dialect.Syntax.Clauses.{starts}
use unique_dialect.Syntax.Mysql
use unique_dialect.Syntax.Mysql.Safe.{mysql_parse-Returns}
use unique_dialect.Text.{IsAscii, Text, codes, trim_space}
use unique_dialect.Tidb.{StmtNode}
use unique_dialect.Translator.Sql.Laws.{IsTidbDialect, translate_sql-node}
use unique_dialect.Translator.Sql.{
  translate_sql, translate_normalized, translate_by_legacy, parse_legacy, is_strict_kind,
  is_supported,
}

parse_legacy-Returns :
    (from : Dialect) (sql : Text)
    → IsTidbDialect from
    → Returns (Mysql.parse sql)
    → Returns (parse_legacy from sql)
unfolding parse_legacy
parse_legacy-Returns mysql sql t h = h
parse_legacy-Returns sqlite sql t h = h
parse_legacy-Returns oracle sql t h = h
parse_legacy-Returns postgres sql t h = absurd t
parse_legacy-Returns (other d) sql t h = absurd t

legacy-Returns :
    (from to : Dialect) (sql : Text)
    → IsTidbDialect from
    → IsAscii sql
    → starts (Mysql.syntax_trim (trim_space sql)) (codes "SELECT ") ≡ false
    → Returns (translate_by_legacy from to sql)
unfolding translate_by_legacy
legacy-Returns from to sql t ascii no_select =
    >>=-Returns (parse_legacy from sql) _
      (parse_legacy-Returns from sql t (mysql_parse-Returns sql ascii no_select))
      λ stmt _. render-Returns (Ir.single (normalize stmt)) from to

normalized-Returns :
    (from to : Dialect) (sql : Text) (p : ParsedStatement NativeAst) (m : Outcome Ir.Rendered)
    → Returns (translate_by_legacy from to sql)
    → Returns m
    → Returns (translate_normalized from to sql p m)
unfolding translate_normalized
normalized-Returns from to sql p (ok r) l h = render-Returns r from to
normalized-Returns from to sql p (err e) l h =
    if-ind Returns (is_strict_kind p.kind && is_supported p.status) _ _ (λ _. tt) (λ _. l)
normalized-Returns from to sql p panic l h = absurd h

-- From a dialect of the TiDB parser, translateSQL never panics on a text of ASCII characters that this
-- parser reads as one statement that is no SELECT, if the parser takes for a statement on data only
-- what is as long as its keywords, and leaves no option out of an ALTER TABLE.
pub translate_sql-Returns :
    (parse_tidb : Text → Option (List StmtNode)) (from to : Dialect) (sql : Text) (node : StmtNode)
    → IsTidbDialect from
    → parse_tidb sql ≡ some (node ∷ [])
    → NodeFits sql node
    → IsAscii sql
    → starts (Mysql.syntax_trim (trim_space sql)) (codes "SELECT ") ≡ false
    → Returns (translate_sql parse_tidb from to sql)
translate_sql-Returns parse_tidb from to sql node t e fits ascii no_select =
    rw (translate_sql-node parse_tidb from to sql node t e) (
      if-ind Returns (same_dialect from to) _ _ (λ _. tt)
        λ _.
          if-ind Returns
            (should_block (classify_tidb_statement sql node).0 (classify_tidb_statement sql node).1)
            _ _ (λ _. tt)
            λ _.
              normalized-Returns from to sql (wrap_tidb_one sql (dialect_text from) node)
                (node_statement sql node) (legacy-Returns from to sql t ascii no_select)
                (node_statement-Returns sql node fits))
