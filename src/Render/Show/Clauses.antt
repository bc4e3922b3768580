-- ===== src/Render/Show/Clauses.antt =====
-- The clauses of the MySQL forms of SHOW that internal/render/render.go writes by the same text.
use unique_dialect.Base.{List, [], ◌∷◌, ◌++◌, if◌then◌else◌}
use unique_dialect.Dialect.{mysql}
use unique_dialect.Render.Quote.{quote_string_literal, quote_identifier_chain}
use unique_dialect.Text.{Text, codes, trim_space, is_empty}

unfoldable pub in_database : Text → Text
unfolding quote_identifier_chain trim_space codes
in_database database =
    if is_empty (trim_space database)
    then []
    else codes " IN " ++ quote_identifier_chain database mysql

-- A clause behind the text that must not be empty for it.
abbrev pub Clause : Type 0
Clause = Text × Text

unfoldable pub where_equals : Text → Text → Clause
unfolding quote_string_literal codes
where_equals column value =
    (value, codes " WHERE " ++ column ++ codes " = " ++ quote_string_literal value)

unfoldable pub where_number : Text → Text → Clause
unfolding codes
where_number column value = (value, codes " WHERE " ++ column ++ codes " = " ++ value)

unfoldable pub like_clause : Text → Clause
unfolding quote_string_literal codes
like_clause pattern = (pattern, codes " LIKE " ++ quote_string_literal pattern)

-- The chain `if … else if …` over the clauses.
unfoldable pub first_of_clauses : List Clause → Text
first_of_clauses [] = []
first_of_clauses ((value, clause) ∷ clauses) =
    if is_empty value then first_of_clauses clauses else clause

unfoldable pub where_like : Text → Text
unfolding first_of_clauses like_clause
where_like pattern = first_of_clauses (like_clause pattern ∷ [])
