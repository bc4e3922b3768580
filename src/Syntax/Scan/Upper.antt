-- ===== src/Syntax/Scan/Upper.antt =====
-- findTopLevelKeyword of internal/syntax/syntax.go with its slice of the text in upper case, which
-- strings.ToUpper may have made shorter than the input.
use unique_dialect.Base.{ℕ, ◌+◌, [], ◌∷◌, Option, none, some, ltb, if◌then◌else◌, length}
use unique_dialect.Outcome.{Outcome, ok, ◌>>=◌}
use unique_dialect.Syntax.Scan.{Scan, initial, at_top, step}
use unique_dialect.Text.{Text, text_eq, slice}

-- The loop, on the text and the keyword in upper case and the length of the keyword.
unfoldable pub find_sliced_from : Text → Text → ℕ → ℕ → Scan → Text → Outcome (Option ℕ)
unfolding step slice text_eq
find_sliced_from upper_input upper_keyword n index s [] = ok none
find_sliced_from upper_input upper_keyword n index s (c ∷ rest) =
    let s' = step c s in
    let next = find_sliced_from upper_input upper_keyword n (index + 1) s' rest in
    if ltb (length (c ∷ rest)) n
    then ok none
    else if at_top s'
    then (slice upper_input index (index + n) >>= λ piece.
        if text_eq piece upper_keyword then ok (some index) else next)
    else next

-- `upper` is strings.ToUpper.
unfoldable pub find_sliced : (Text → Text) → Text → Text → Outcome (Option ℕ)
unfolding find_sliced_from
find_sliced upper input keyword =
    find_sliced_from (upper input) (upper keyword) (length keyword) 0 initial input
