-- ===== src/Bootstrap/Regexp.antt =====
-- createTablePattern and onUpdateTimestampPattern of bootstrap.go.
use unique_dialect.Base.{
  ℕ, zero, suc, ◌-◌, ◌||◌, List, [], ◌∷◌, Option, none, some, String, if◌then◌else◌, choose, length,
  take, drop, ◌==◌,
}
use unique_dialect.Render.Regexp.{span, is_blank, is_word}
use unique_dialect.Text.{
  Text, codes, has_prefix, to_upper, upper_byte, to_lower, lower_byte, is_empty,
}

-- What stays behind a word in any case.
unfoldable pub behind_word : String → Text → Option Text
unfolding has_prefix upper_byte codes
behind_word w s =
    if has_prefix (to_upper s) (codes w) then some (drop (length (codes w)) s) else none

-- Behind `\s+`.
unfoldable pub behind_blanks : Text → Option Text
unfolding span is_blank
behind_blanks [] = none
behind_blanks (c ∷ s) = if is_blank c then some (drop (span is_blank s) s) else none

-- Behind "[`\"]?".
unfoldable pub behind_quote : Text → Text
behind_quote [] = []
behind_quote (c ∷ s) = if c == b'`' || c == b'"' then s else c ∷ s

-- A match of `[a-zA-Z0-9_]+` with what stays behind it.
unfoldable pub identifier : Text → Option (Text × Text)
unfolding span is_word
identifier s =
    let n = span is_word s in if is_empty (take n s) then none else some (take n s, drop n s)

-- The identifier of createTablePattern at the start of a text.
unfoldable pub match_create_table : Text → Option Text
unfolding behind_word behind_blanks behind_quote identifier
match_create_table s = choose (behind_word "CREATE" s) none λ a. choose (behind_blanks a) none λ b.
    choose (behind_word "TABLE" b) none λ c.
      choose (behind_blanks c) none λ d. choose (identifier (behind_quote d)) none λ p. some p.0

-- FindStringSubmatch of createTablePattern.
unfoldable pub find_create_table : Text → Option Text
unfolding match_create_table
find_create_table [] = none
find_create_table (c ∷ s) = elim (match_create_table (c ∷ s)) [
  | none ↦ find_create_table s
  | some table ↦ some table
]

-- Behind `on\s+update\s+current_timestamp` at the start of a text.
unfoldable pub match_on_update : Text → Option Text
unfolding behind_word behind_blanks
match_on_update s = choose (behind_word "ON" s) none λ a. choose (behind_blanks a) none λ b.
    choose (behind_word "UPDATE" b) none
      λ c. choose (behind_blanks c) none λ d. behind_word "CURRENT_TIMESTAMP" d

-- Behind the last match that no comma stands before, as `[^,]*` is greedy.
unfoldable pub last_on_update : Text → Option Text
unfolding match_on_update
last_on_update [] = none
last_on_update (c ∷ s) =
    let rest = last_on_update s in
    choose (if c == b',' then none else rest) (match_on_update (c ∷ s)) some

-- The identifier of onUpdateTimestampPattern at the start of a text, with what stays behind the match.
unfoldable pub match_on_update_column : Text → Option (Text × Text)
unfolding behind_quote identifier behind_blanks behind_word last_on_update
match_on_update_column s = choose (identifier (behind_quote s)) none λ p.
    choose (behind_blanks (behind_quote p.1)) none λ a.
      choose (behind_word "TIMESTAMP" a) none
        λ b. choose (last_on_update b) none λ rest. some (p.0, rest)

-- FindAllStringSubmatch; the first `n` bytes belong to the match before.
unfoldable pub find_columns_from : ℕ → Text → List Text
unfolding match_on_update_column lower_byte
find_columns_from n [] = []
find_columns_from (suc n) (c ∷ s) = find_columns_from n s
find_columns_from zero (c ∷ s) = elim (match_on_update_column (c ∷ s)) [
  | none ↦ find_columns_from 0 s
  | some p ↦ to_lower p.0 ∷ find_columns_from (length s - length p.1) s
]

unfoldable pub find_on_update_columns : Text → List Text
unfolding find_columns_from
find_on_update_columns s = find_columns_from 0 s
