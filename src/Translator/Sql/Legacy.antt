-- ===== src/Translator/Sql/Legacy.antt =====
-- translateSQL of translator.go from PostgreSQL: what its detour over ParseOne comes to.
use unique_dialect.Base.{false, [], ◌∷◌, List, map, Option, ◌≡◌, refl, ap, if◌then◌else◌}
use unique_dialect.Dialect.{Dialect, postgres, dialect_text, same_dialect}
use unique_dialect.Normalize.Parsed.{parsed_statement, native_statement}
use unique_dialect.Outcome.{Outcome, ok, err, panic, ◌>>=◌}
use unique_dialect.Parser.Multi.{parse_one, parse_multi, as_native}
use unique_dialect.Parser.{
  classify_legacy, wrap_legacy_one, wrap_legacy, parse_postgres_statements, parse_multi_postgres,
  single, should_block,
}
use unique_dialect.Syntax
use unique_dialect.Syntax.Postgres
use unique_dialect.Text.{Text, codes}
use unique_dialect.Tidb.{StmtNode}
use unique_dialect.Translator.Sql.{
  translate_sql, translate_parse, translate_normalized, translate_by_legacy, parse_legacy,
}

-- No statement of the syntax layer is blocked.
classify_legacy-passes :
    (stmt : Syntax.Statement)
    → should_block (classify_legacy stmt).0 (classify_legacy stmt).1 ≡ false
unfolding classify_legacy should_block
classify_legacy-passes (Syntax.raw sql) = refl
classify_legacy-passes (Syntax.select s) = refl
classify_legacy-passes (Syntax.insert s) = refl
classify_legacy-passes (Syntax.update s) = refl
classify_legacy-passes (Syntax.delete s) = refl

after_parse :
    (to : Dialect) (sql dialect : Text) (o : Outcome Syntax.Statement)
    → Postgres.parse sql ≡ o
    → translate_parse postgres to sql (
        (((o >>= λ stmt. ok (stmt ∷ [])) >>= λ nodes. ok (wrap_legacy sql dialect nodes)) >>= λ ps.
        ok (map as_native ps))
        >>= λ ps. single ps)
      ≡ translate_by_legacy postgres to sql
unfolding translate_parse translate_normalized translate_by_legacy parse_legacy wrap_legacy
    wrap_legacy_one single parsed_statement native_statement
after_parse to sql dialect (ok stmt) e = rw (e, classify_legacy-passes stmt) refl
after_parse to sql dialect (err x) e = refl
after_parse to sql dialect panic e = rw e refl

-- From PostgreSQL, translateSQL hands back the text for the same dialect; to any other it is the parser
-- of the syntax layer, the normalization of its statement and the rendering, one after
-- the other, whatever the TiDB parser does: the first half never blocks, and an error of it comes
-- back from the second.
pub translate_sql-legacy :
    (parse_tidb : Text → Option (List StmtNode)) (to : Dialect) (sql : Text)
    → translate_sql parse_tidb postgres to sql
      ≡ (if same_dialect postgres to then ok sql else translate_by_legacy postgres to sql)
unfolding translate_sql parse_one parse_multi parse_multi_postgres parse_postgres_statements
    dialect_text codes
translate_sql-legacy parse_tidb to sql =
    ap (λ (o : Outcome Text). if same_dialect postgres to then ok sql else o)
      (after_parse to sql (codes "postgres") (Postgres.parse sql) refl)
