-- ===== src/Tests/Examples/Write.antt =====
-- The theorems on the rendering at concrete inputs.
use unique_dialect.Base.{
  true, false, ℕ, ◌+◌, [], ◌∷◌, ◌++◌, none, some, ◌≡◌, ◌⊎◌, refl, arith, drop,
}
use unique_dialect.Dialect.{mysql, postgres, sqlite}
use unique_dialect.Ir
use unique_dialect.Normalize.{limit_of}
use unique_dialect.Outcome.{ok}
use unique_dialect.Render.Dml.Limit.{parse_limit-render_limit}
use unique_dialect.Render.Dml.Upsert.{render_conflict-columns}
use unique_dialect.Render.Dml.{render_limit, render_conflict}
use unique_dialect.Render.Quote.Chain.{requote}
use unique_dialect.Render.Quote.Literal.{read_literal, read_literal-quote}
use unique_dialect.Render.Quote.{quote_identifier_chain, quote_string_literal}
use unique_dialect.Render.Regexp.{is_digit}
use unique_dialect.Render.Rewrite.Placeholders.{
  count, replace_question_placeholders-count, question_placeholders-number,
}
use unique_dialect.Render.Rewrite.{
  placeholder_mark, replace_question_placeholders, question_placeholders,
}
use unique_dialect.Render.Slices.Bounds.{IsValue, render_slices-IsValue}
use unique_dialect.Render.Slices.{before_paren, move_constraint_name, rewrite_mysql_offset_limit}
use unique_dialect.Syntax.{LimitClause}
use unique_dialect.Syntax.Mysql
use unique_dialect.Syntax.Postgres
use unique_dialect.Text.Decimal.{pos}
use unique_dialect.Text.{Text, codes}

requote_example :
    quote_identifier_chain (quote_identifier_chain (codes "s.`t\"") mysql) postgres
    ≡ quote_identifier_chain (codes "s.`t\"") postgres
requote_example = requote mysql postgres (codes "s.`t\"")

read_literal-quote_example :
    read_literal true (quote_string_literal (codes "it's") ++ codes " OR 1")
    ≡ some (codes "it's", codes " OR 1")
unfolding codes
read_literal-quote_example =
    read_literal-quote true (codes "it's") (codes " OR 1") refl λ e. omega arith

-- A backslash at the end of a value: the literal is closed in standard SQL and open in MySQL.
backslash : read_literal false (quote_string_literal (92 ∷ [])) ≡ some (92 ∷ [], [])
unfolding read_literal quote_string_literal
backslash = refl

backslash_in_mysql : read_literal true (quote_string_literal (92 ∷ [])) ≡ none
unfolding read_literal quote_string_literal
backslash_in_mysql = refl

replace_question_placeholders-count_example :
    ((placeholder_mark postgres ≡ none)
      × (replace_question_placeholders (codes "a = ?") postgres 4 ≡ (codes "a = ?", 4)))
    ⊎ ((sign : ℕ) × (placeholder_mark postgres ≡ some sign)
        × ((replace_question_placeholders (codes "a = ?") postgres 4).1
            ≡ 4 + count b'?' (codes "a = ?")))
replace_question_placeholders-count_example =
    replace_question_placeholders-count (codes "a = ?") postgres 4

question_placeholders-number_example :
    question_placeholders (replace_question_placeholders (b'?' ∷ b',' ∷ b'?' ∷ []) postgres 9).0
    ≡ b'?' ∷ b',' ∷ b'?' ∷ []
question_placeholders-number_example = question_placeholders-number (b'?' ∷ b',' ∷ b'?' ∷ []) 9 (
  λ e. omega arith,
  λ e. unfold is_digit in refl,
  (λ e. omega arith, λ e. absurd (omega arith), (λ e. omega arith, λ e. tt, tt)),
)

abbrev page : LimitClause
page = record { offset = some (pos 20); count = pos 10 }

parse_limit-render_limit_example :
    (Mysql.parse_limit (drop 7 (render_limit (limit_of page) mysql)) ≡ ok page)
    × (Mysql.parse_limit (drop 7 (render_limit (limit_of page) sqlite)) ≡ ok page)
    × (Postgres.parse_limit (drop 7 (render_limit (limit_of page) postgres)) ≡ ok page)
parse_limit-render_limit_example = parse_limit-render_limit page (omega arith, omega arith)

abbrev upsert : Text → Ir.ConflictClause
upsert value = record {
  style = Ir.postgres_style;
  target_columns = codes "id" ∷ [];
  assignments = record { column = codes "n"; value = value } ∷ [];
}

render_conflict-columns_example :
    render_conflict (upsert (codes "t.n + 1")) mysql
    ≡ render_conflict (upsert (codes "EXCLUDED.n")) mysql
render_conflict-columns_example =
    render_conflict-columns (upsert (codes "t.n + 1")) (upsert (codes "EXCLUDED.n")) mysql refl refl

render_slices-IsValue_example :
    IsValue (before_paren (codes "CONSTRAINT FOREIGN KEY"))
    × IsValue (move_constraint_name (codes "CONSTRAINT FOREIGN KEY"))
    × IsValue (rewrite_mysql_offset_limit (codes "CONSTRAINT FOREIGN KEY") postgres)
unfolding codes
render_slices-IsValue_example = render_slices-IsValue (codes "CONSTRAINT FOREIGN KEY") postgres refl

named_unique :
    move_constraint_name (codes "unique k (a)") ≡ ok (some (codes "CONSTRAINT k UNIQUE (a)"))
unfolding move_constraint_name codes
named_unique = refl

offset_limit :
    rewrite_mysql_offset_limit (codes "SELECT a FROM t LIMIT 5, 9") postgres
    ≡ ok (codes "SELECT a FROM t LIMIT 9 OFFSET 5")
unfolding rewrite_mysql_offset_limit codes
offset_limit = refl
