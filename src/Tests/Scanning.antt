-- ===== src/Tests/Scanning.antt =====
-- Runs of the scanner.
use unique_dialect.Base.{[], ◌∷◌, some, ◌≡◌, refl}
use unique_dialect.Text.{codes}
use unique_dialect.Syntax.Scan.{
  find_top_level_keyword, find_matching_paren, split_top_level_csv, strip_identifier,
  trim_statement,
}

quoted_comma :
    split_top_level_csv (codes "a, f(b, c), 'x,y'")
    ≡ codes "a" ∷ codes "f(b, c)" ∷ codes "'x,y'" ∷ []
unfolding split_top_level_csv codes
quoted_comma = refl

keyword_at : find_top_level_keyword (codes "(a FROM b) from t") (codes " FROM ") ≡ some 10
unfolding find_top_level_keyword codes
keyword_at = refl

paren_at : find_matching_paren (codes "x(a, ')', (b))") 1 ≡ some 13
unfolding find_matching_paren codes
paren_at = refl

semicolon : trim_statement (codes " a ; ") ≡ codes "a"
unfolding trim_statement codes
semicolon = refl

stripped : strip_identifier (codes " `a`") ≡ codes "a"
unfolding strip_identifier codes
stripped = refl
