-- ===== src/Tests/Examples/Scan.antt =====
-- The laws of the scanner at concrete inputs.
use unique_dialect.Base.{
  ◌++◌, ◌==◌, if◌then◌else◌, ℕ, ◌+◌, ◌-◌, ◌≤◌, ◌<◌, true, false, List, [], ◌∷◌, map, ◌≡◌, refl,
  length, drop,
}
use unique_dialect.Outcome.{panic}
use unique_dialect.Syntax.Scan.Upper.{find_sliced}
use unique_dialect.Syntax.Scan.Csv.{
  comma, has_comma, IsParts, split_top_level_csv-join, split_top_level_csv-IsParts,
}
use unique_dialect.Syntax.Scan.Keyword.{
  is_hit, find_top_level_keyword-some, find_top_level_keyword-none,
}
use unique_dialect.Syntax.Scan.Paren.{is_balanced, find_matching_paren-some}
use unique_dialect.Syntax.Scan.{
  step, find_top_level_keyword, find_matching_paren, split_top_level_csv,
}
use unique_dialect.Text.{upper_byte, Text, codes, join, trim_space}

abbrev nested : Text
nested = codes "(a FROM b) from t"

find_top_level_keyword-some_example :
    (is_hit nested (codes " FROM ") 10 ≡ true)
    × (10 + length (codes " FROM ") ≤ length nested)
    × ((j : ℕ) → j < 10 → is_hit nested (codes " FROM ") j ≡ false)
unfolding find_top_level_keyword codes
find_top_level_keyword-some_example =
    find_top_level_keyword-some nested (codes " FROM ") 10 (λ e. cc) refl

find_top_level_keyword-none_example : is_hit (codes "'a SET b'") (codes " SET ") 2 ≡ false
unfolding find_top_level_keyword codes
find_top_level_keyword-none_example =
    find_top_level_keyword-none (codes "'a SET b'") (codes " SET ") (λ e. cc) refl 2

abbrev call : Text
call = codes "x(a, ')', (b))"

find_matching_paren-some_example :
    (1 < 13)
    × (13 < length call)
    × (is_balanced (drop 1 call) (13 + 1 - 1) ≡ true)
    × ((n : ℕ) → 0 < n → 1 + n ≤ 13 → is_balanced (drop 1 call) n ≡ false)
unfolding find_matching_paren codes
find_matching_paren-some_example = find_matching_paren-some call 1 13 refl

abbrev two_parts : List Text
two_parts = codes "f(a, b) " ∷ codes " ','" ∷ []

two_parts-IsParts : IsParts two_parts
unfolding codes has_comma step
two_parts-IsParts = (refl, refl, refl)

split_top_level_csv-join_example :
    split_top_level_csv (join (comma ∷ []) two_parts) ≡ map trim_space two_parts
split_top_level_csv-join_example = split_top_level_csv-join two_parts two_parts-IsParts

split_top_level_csv-IsParts_example :
    (ps : List Text) × (split_top_level_csv call ≡ map trim_space ps)
    × (join (comma ∷ []) ps ≡ call)
    × IsParts ps
split_top_level_csv-IsParts_example = split_top_level_csv-IsParts call

-- strings.ToUpper on ASCII characters and on `ı`, which it makes shorter by a byte.
abbrev upper_dotless : Text → Text
upper_dotless [] = []
upper_dotless (c ∷ t) =
    let rest = upper_dotless t in
    if c == 196 then rest else if c == 177 then b'I' ∷ rest else upper_byte c ∷ rest

-- `a = 'ı'`.
dotless_panics :
    find_sliced upper_dotless (codes "a = '" ++ 196 ∷ 177 ∷ 39 ∷ []) (codes " WHERE ") ≡ panic
unfolding find_sliced codes upper_byte
dotless_panics = refl
