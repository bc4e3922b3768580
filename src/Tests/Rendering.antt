-- ===== src/Tests/Rendering.antt =====
-- Runs of the rewriting of text.
use unique_dialect.Base.{◌≡◌, refl}
use unique_dialect.Dialect.{mysql, postgres}
use unique_dialect.Render.Rewrite.{rewrite_raw}
use unique_dialect.Text.{codes}

to_postgres :
    rewrite_raw (codes "a = ? AND `t`.`b` > NOW() LIMIT 5, 10 ") mysql postgres 0
    ≡ (codes "a = $1 AND \"t\".\"b\" > CURRENT_TIMESTAMP LIMIT 10 OFFSET 5", 1)
unfolding rewrite_raw codes
to_postgres = refl

to_mysql :
    rewrite_raw (codes "\"a\" ilike $1 or b = $12") postgres mysql 0
    ≡ (codes "`a` LIKE ? or b = ?", 0)
unfolding rewrite_raw codes
to_mysql = refl

quoted_question : rewrite_raw (codes "a = '?'") mysql postgres 0 ≡ (codes "a = '$1'", 1)
unfolding rewrite_raw codes
quoted_question = refl
