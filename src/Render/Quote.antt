-- ===== src/Render/Quote.antt =====
-- The quoting functions of internal/render/render.go.
pub mod Chain
pub mod Literal
use unique_dialect.Base.{ℕ, ◌+◌, Bool, ◌||◌, List, [], ◌∷◌, ◌++◌, ◌==◌, map, if◌then◌else◌}
use unique_dialect.Dialect.{Dialect, mysql, postgres, sqlite, oracle, other}
use unique_dialect.Text.{Text, trim_by, trim_space, split, join, join_after, replace_all}

abbrev pub dot : ℕ
dot = 46

-- The cut set of quoteIdentifierPart: backquote, double quote, space.
unfoldable pub in_quote_cutset : ℕ → Bool
in_quote_cutset c = c == 96 || c == 34 || c == 32

-- The quote mark of a dialect.
abbrev pub mark : Dialect → ℕ
mark postgres = 34
mark oracle = 34
mark mysql = 96
mark sqlite = 96
mark (other _) = 96

unfoldable pub quote_identifier_part : Text → Dialect → Text
unfolding trim_by in_quote_cutset
quote_identifier_part identifier dialect =
    mark dialect ∷ trim_by in_quote_cutset identifier ++ mark dialect ∷ []

unfoldable pub quote_parts : List Text → Dialect → List Text
unfolding quote_identifier_part
quote_parts [] dialect = []
quote_parts (p ∷ ps) dialect = quote_identifier_part p dialect ∷ quote_parts ps dialect

unfoldable pub quote_identifier_chain : Text → Dialect → Text
unfolding split trim_space quote_parts join
quote_identifier_chain identifier dialect =
    join (dot ∷ []) (quote_parts (split dot (trim_space identifier)) dialect)

abbrev pub apostrophe : ℕ
apostrophe = 39

unfoldable pub quote_string_literal : Text → Text
unfolding replace_all
quote_string_literal value =
    apostrophe ∷ replace_all value (apostrophe ∷ []) (apostrophe ∷ apostrophe ∷ [])
    ++ apostrophe ∷ []
