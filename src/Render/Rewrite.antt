-- ===== src/Render/Rewrite.antt =====
-- rewriteRaw of internal/render/render.go and what it calls. The state is the number of the last
-- placeholder, which replaceQuestionPlaceholders counts up.
pub mod Placeholders
use unique_dialect.Base.{
  ℕ, suc, ◌+◌, ◌-◌, Bool, true, false, not, ◌||◌, List, [], ◌∷◌, ◌++◌, Option, none, some, ◌==◌,
  if◌then◌else◌, length, take, drop,
}
use unique_dialect.Dialect.{Dialect, mysql, postgres, sqlite, oracle, other, same_dialect}
use unique_dialect.Render.Quote.{quote_identifier_chain}
use unique_dialect.Render.Regexp.{
  replace_func, quoted_match, placeholder_match, ilike_match, charset_match, offset_limit_match,
}
use unique_dialect.Outcome.{returned}
use unique_dialect.Render.Slices.{rewrite_mysql_offset_limit}
pub use unique_dialect.Render.Slices.{placeholder_mark}
use unique_dialect.Text.Decimal.{format_nat}
use unique_dialect.Text.{Text, codes, trim_by, trim_space, replace_all}

-- A state-passing computation over the placeholder counter.
abbrev pub M : Type 0 → Type 0
M A = ℕ → A × ℕ

infixl 5 ◌>>=◌
abbrev pub ◌>>=◌ : {A B : Type 0} → M A → (A → M B) → M B
◌>>=◌ m f n = let (a, n') = m n in f a n'

abbrev pub done : {A : Type 0} → A → M A
done a n = (a, n)

abbrev pub put_before : Text → Text × ℕ → Text × ℕ
put_before p (t, n) = (p ++ t, n)

-- The loop over the characters.
unfoldable pub number_questions : ℕ → Text → M Text
unfolding format_nat
number_questions sign [] n = ([], n)
number_questions sign (c ∷ s) n =
    let hit = put_before (sign ∷ format_nat (n + 1)) (number_questions sign s (n + 1)) in
    let miss = put_before (c ∷ []) (number_questions sign s n) in if c == b'?' then hit else miss

unfoldable pub replace_question_placeholders : Text → Dialect → M Text
unfolding number_questions
replace_question_placeholders input to n = elim (placeholder_mark to) [
  | none ↦ (input, n)
  | some sign ↦ number_questions sign input n
]

-- The quoted identifiers of one dialect, quoted for another.
unfoldable pub requote_identifiers : ℕ → Dialect → Text → Text
unfolding replace_func quoted_match quote_identifier_chain trim_by
requote_identifiers q to =
    replace_func (quoted_match q) (λ t. quote_identifier_chain (trim_by (λ c. c == q) t) to)

-- The rewriting of MySQL text up to its placeholders.
unfoldable pub rewrite_mysql : Text → Dialect → Text
unfolding requote_identifiers replace_func charset_match replace_all rewrite_mysql_offset_limit
    codes
rewrite_mysql input to =
    let t1 = requote_identifiers 96 to input in
    let t2 = replace_func charset_match (λ t. codes "'") t1 in
    let t3 = replace_all t2 (codes "NOW()") (codes "CURRENT_TIMESTAMP") in
    let t4 = replace_all t3 (codes "CURRENT_TIMESTAMP()") (codes "CURRENT_TIMESTAMP") in
    let t5 = replace_all t4 (codes "PRIMARY KEY(") (codes "PRIMARY KEY (") in
    returned t5 (rewrite_mysql_offset_limit t5 to)

-- `to == "mysql" || to == "sqlite"`.
abbrev pub takes_questions : Dialect → Bool
takes_questions mysql = true
takes_questions sqlite = true
takes_questions postgres = false
takes_questions oracle = false
takes_questions (other _) = false

-- `$1` and the like as `?`.
unfoldable pub question_placeholders : Text → Text
unfolding replace_func placeholder_match codes
question_placeholders = replace_func placeholder_match (λ t. codes "?")

unfoldable pub rewrite_postgres : Text → Dialect → Text
unfolding requote_identifiers replace_func ilike_match question_placeholders codes
rewrite_postgres input to =
    let t1 = requote_identifiers 34 to input in
    let t2 = replace_func ilike_match (λ t. codes " LIKE ") t1 in
    if takes_questions to then question_placeholders t2 else t2

unfoldable pub rewrite_from : Dialect → Text → Dialect → M Text
unfolding rewrite_mysql rewrite_postgres replace_question_placeholders
rewrite_from mysql output to n = replace_question_placeholders (rewrite_mysql output to) to n
rewrite_from postgres output to n = (rewrite_postgres output to, n)
rewrite_from sqlite output to n = (output, n)
rewrite_from oracle output to n = (output, n)
rewrite_from (other _) output to n = (output, n)

unfoldable pub rewrite_raw : Text → Dialect → Dialect → M Text
unfolding same_dialect rewrite_from trim_space
rewrite_raw input from to n =
    let output = trim_space input in
    if same_dialect from to then (output, n) else rewrite_from from output to n
