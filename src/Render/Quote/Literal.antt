-- ===== src/Render/Quote/Literal.antt =====
-- String literals: a reader of SQL literals gets back what quoteStringLiteral writes.
use unique_dialect.Base.{
  Bool, true, false, [], ◌∷◌, ◌++◌, Option, none, some, ◌≡◌, ◌≢◌, refl, arith, ◌==◌, Bool-cases,
  inl, inr, ℕ, ◌&&◌, ◌||◌, if◌then◌else◌, append_assoc,
}
use unique_dialect.Render.Quote.{apostrophe, quote_string_literal}
use unique_dialect.Text.{Text, replace_all, has_prefix}

-- Where a reader of a literal stands: in it, behind an apostrophe in it, or behind a backslash.
pub data Place : Type 0 where
  inside behind_apostrophe behind_backslash : Place

-- What a backslash and a byte stand for in MySQL.
unfoldable pub unescaped : ℕ → Text
unescaped c =
    if c == b'n'
    then 10 ∷ []
    else if c == b't'
    then 9 ∷ []
    else if c == b'r'
    then 13 ∷ []
    else if c == b'b'
    then 8 ∷ []
    else if c == b'0'
    then 0 ∷ []
    else if c == b'Z'
    then 26 ∷ []
    else if c == b'%' || c == b'_'
    then 92 ∷ c ∷ []
    else c ∷ []

abbrev pub prepend : Text → Option (Text × Text) → Option (Text × Text)
prepend t none = none
prepend t (some (u, rest)) = some (t ++ u, rest)

-- The text behind an opening apostrophe: `''` stands for an apostrophe, a single one ends the
-- literal, and what follows it is returned too. The flag says whether backslashes escape, as they do in
-- MySQL, but neither in standard SQL nor in PostgreSQL and SQLite.
unfoldable pub read_literal_from : Bool → Place → Text → Option (Text × Text)
read_literal_from escapes behind_apostrophe [] = some ([], [])
read_literal_from escapes inside [] = none
read_literal_from escapes behind_backslash [] = none
read_literal_from escapes behind_apostrophe (c ∷ s) = elim (c == apostrophe) [
  | true ↦ prepend (apostrophe ∷ []) (read_literal_from escapes inside s)
  | false ↦ some ([], c ∷ s)
]
read_literal_from escapes behind_backslash (c ∷ s) =
    prepend (unescaped c) (read_literal_from escapes inside s)
read_literal_from escapes inside (c ∷ s) = elim (c == apostrophe) [
  | true ↦ read_literal_from escapes behind_apostrophe s
  | false ↦ elim (escapes && c == 92) [
    | true ↦ read_literal_from escapes behind_backslash s
    | false ↦ prepend (c ∷ []) (read_literal_from escapes inside s)
  ]
]

unfoldable pub read_literal : Bool → Text → Option (Text × Text)
unfolding read_literal_from
read_literal escapes [] = none
read_literal escapes (c ∷ s) = if c == apostrophe then read_literal_from escapes inside s else none

-- A backslash that escapes stands in a value.
abbrev pub is_escaping : Bool → Text → Bool
is_escaping escapes [] = false
is_escaping escapes (c ∷ s) = (escapes && c == 92) || is_escaping escapes s

-- The body of a literal: each apostrophe doubled.
doubled : Text → Text
doubled [] = []
doubled (c ∷ s) = if c == apostrophe then apostrophe ∷ apostrophe ∷ doubled s else c ∷ doubled s

replace_all-doubled :
    (s : Text) → replace_all s (apostrophe ∷ []) (apostrophe ∷ apostrophe ∷ []) ≡ doubled s
unfolding replace_all doubled has_prefix
replace_all-doubled [] = refl
replace_all-doubled (c ∷ s) = ground (arith, replace_all-doubled s)

-- No apostrophe follows.
abbrev pub Ends : Text → Type 0
Ends [] = Unit
Ends (c ∷ s) = c ≢ apostrophe

read-doubled :
    (escapes : Bool) (s rest : Text)
    → is_escaping escapes s ≡ false
    → Ends rest
    → read_literal_from escapes inside (doubled s ++ apostrophe ∷ rest) ≡ some (s, rest)
unfolding read_literal_from doubled
read-doubled escapes [] [] plain h = refl
read-doubled escapes [] (c ∷ rest) plain h = ground arith
read-doubled escapes (c ∷ s) rest plain h = elim (Bool-cases (c == apostrophe)) [
  | inl e ↦ ground (arith, read-doubled escapes s rest (ground (arith, plain)) h)
  | inr e ↦ ground (arith, read-doubled escapes s rest (ground (arith, plain)) h)
]

-- A reader of SQL literals that stands in front of a rendered literal, behind which no apostrophe
-- follows, gets back the value, every byte of it, and stops at its end: the reader of standard SQL for
-- all values, the reader for which backslashes escape for those without a backslash.
pub read_literal-quote :
    (escapes : Bool) (value rest : Text)
    → is_escaping escapes value ≡ false
    → Ends rest
    → read_literal escapes (quote_string_literal value ++ rest) ≡ some (value, rest)
unfolding read_literal quote_string_literal
read_literal-quote escapes value rest plain h = rw replace_all-doubled (
    rw (append_assoc (doubled value) (apostrophe ∷ []) rest)
      (read-doubled escapes value rest plain h))
