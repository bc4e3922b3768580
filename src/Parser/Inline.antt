-- ===== src/Parser/Inline.antt =====
-- The expressions of internal/parser/extensions.go that are searched for within a text: words in any
-- case with blanks between them, as `(?i)\bDROP\s+PRIMARY\s+KEY\s+IF\s+EXISTS\b`.
use unique_dialect.Base.{
  ℕ, ◌+◌, Bool, true, false, not, ◌&&◌, ◌||◌, List, [], ◌∷◌, Option, none, some, String,
  if◌then◌else◌, choose, leb, ◌==◌, length, drop, take,
}
use unique_dialect.Render.Regexp.{Matcher, span, is_blank, is_word, replace_func}
use unique_dialect.Text.{Text, codes, has_prefix, to_upper, upper_byte, trim_by, trim_space}

abbrev pub starts_word : Text → Bool
unfolding is_word
starts_word [] = false
starts_word (c ∷ s) = is_word c

-- The length of the first of some words that a text starts with.
unfoldable pub one_of_words : List String → Text → Option ℕ
unfolding has_prefix upper_byte codes
one_of_words [] s = none
one_of_words (w ∷ ws) s =
    if has_prefix (to_upper s) (codes w) then some (length (codes w)) else one_of_words ws s

-- The words behind the first one, each after some blanks, up to the end of a word.
unfoldable pub more_words : List (List String) → Text → Option ℕ
unfolding one_of_words span is_blank is_word
more_words [] s = if starts_word s then none else some 0
more_words (w ∷ ws) s =
    let n = span is_blank s in
    let more =
      choose (one_of_words w (drop n s)) none
        λ m. choose (more_words ws (drop (n + m) s)) none λ k. some (n + m + k) in
    if leb 1 n then more else none

unfoldable pub words_match : List String → List (List String) → Matcher
unfolding one_of_words more_words is_word
words_match w ws before s =
    if choose before false is_word
    then none
    else choose (one_of_words w s) none
        λ m. choose (more_words ws (drop m s)) none λ k. some (m + k)

-- MatchString of an expression that is not anchored.
unfoldable pub matches_from : Matcher → Option ℕ → Text → Bool
matches_from m before [] = choose (m before []) false λ n. true
matches_from m before (c ∷ s) =
    let rest = matches_from m (some c) s in choose (m before (c ∷ s)) rest λ n. true

unfoldable pub matches : Matcher → Text → Bool
unfolding matches_from
matches m s = matches_from m none s

abbrev pub if_exists_words : List (List String)
if_exists_words = ("IF" ∷ []) ∷ ("EXISTS" ∷ []) ∷ []

-- mariaDBDropForeignKeyIfExistsInlinePattern.
unfoldable pub drop_foreign_key_if_exists : Matcher
unfolding words_match
drop_foreign_key_if_exists =
    words_match ("DROP" ∷ []) (("FOREIGN" ∷ []) ∷ ("KEY" ∷ []) ∷ if_exists_words)

-- mariaDBDropPrimaryKeyIfExistsInlinePattern.
unfoldable pub drop_primary_key_if_exists : Matcher
unfolding words_match
drop_primary_key_if_exists =
    words_match ("DROP" ∷ []) (("PRIMARY" ∷ []) ∷ ("KEY" ∷ []) ∷ if_exists_words)

-- mariaDBDropIndexIfExistsInlinePattern.
unfoldable pub drop_index_if_exists : Matcher
unfolding words_match
drop_index_if_exists = words_match ("DROP" ∷ []) (("INDEX" ∷ "KEY" ∷ []) ∷ if_exists_words)

-- mariaDBAddUniqueKeyIfNotExistsInlinePattern.
unfoldable pub add_unique_key_if_not_exists : Matcher
unfolding words_match
add_unique_key_if_not_exists =
    words_match ("ADD" ∷ [])
      (("UNIQUE" ∷ []) ∷ ("KEY" ∷ "INDEX" ∷ []) ∷ ("IF" ∷ []) ∷ ("NOT" ∷ []) ∷ ("EXISTS" ∷ []) ∷ [])

-- showDatabasesWhereDatabaseInlinePattern.
unfoldable pub where_database : Matcher
unfolding words_match
where_database = words_match ("WHERE" ∷ []) (("DATABASE" ∷ []) ∷ [])

-- ReplaceAllString with a text that has no group.
unfoldable pub replace_matches : Matcher → Text → Text → Text
unfolding replace_func
replace_matches m new s = replace_func m (λ t. new) s

-- The text behind some words and the blanks after each of them.
unfoldable pub skip_words : List String → Text → Option Text
unfolding one_of_words span is_blank
skip_words [] s = some s
skip_words (w ∷ ws) s = choose (one_of_words (w ∷ []) s) none λ m.
    let n = span is_blank (drop m s) in
    let rest = skip_words ws (drop (m + n) s) in if leb 1 n then rest else none

unfoldable pub leading_blanks : Text → Text
unfolding span is_blank
leading_blanks s = drop (span is_blank s) s

-- A quoted identifier of at least one byte, or a bare one of bytes that pass a test, with the text
-- behind it.
unfoldable pub wrapped_in : ℕ → Text → Option (Text × Text)
unfolding span
wrapped_in q s =
    let n = span (λ d. not (d == q)) s in
    if leb 1 n && leb (n + 1) (length s) then some (q ∷ take (n + 1) s, drop (n + 1) s) else none

unfoldable pub identifier_match : (ℕ → Bool) → Text → Option (Text × Text)
unfolding wrapped_in span
identifier_match p [] = none
identifier_match p (c ∷ s) =
    let n = span p (c ∷ s) in
    if c == 96
    then wrapped_in 96 s
    else if c == 34
    then wrapped_in 34 s
    else if leb 1 n
    then some (take n (c ∷ s), drop n (c ∷ s))
    else none

abbrev pub in_wrap_cutset : ℕ → Bool
in_wrap_cutset c = c == 96 || c == 34

-- stripWrappedIdentifier.
unfoldable pub strip_wrapped_identifier : Text → Text
unfolding trim_by trim_space
strip_wrapped_identifier value = trim_by in_wrap_cutset (trim_space value)
