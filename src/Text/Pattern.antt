-- ===== src/Text/Pattern.antt =====
-- Regular expressions of the shape that the code matches whole statements with, `(?is)^...$`:
-- blanks and words, in sequence, in alternatives and optional.
use unique_dialect.Base.{
  Bool, true, false, List, [], ◌∷◌, ◌++◌, String, if◌then◌else◌, length, drop,
}
use unique_dialect.Render.Regexp.{is_blank}
use unique_dialect.Text.{Text, codes, has_prefix, to_upper, upper_byte}

pub data Pattern : Type 0 where
  -- `\s*` and `\s+`.
  blanks : Pattern
  some_blanks : Pattern
  -- A word of capital letters, in any case.
  word : String → Pattern
  optional : Pattern → Pattern
  either : Pattern → Pattern → Pattern
  then_by : Pattern → Pattern → Pattern

-- All that stays of a text when some of its leading blanks are taken off.
unfoldable pub behind_blanks : Text → List Text
unfolding is_blank
behind_blanks [] = [] ∷ []
behind_blanks (c ∷ s) = (c ∷ s) ∷ (if is_blank c then behind_blanks s else [])

unfoldable pub behind_some_blanks : Text → List Text
unfolding behind_blanks is_blank
behind_some_blanks [] = []
behind_some_blanks (c ∷ s) = if is_blank c then behind_blanks s else []

unfoldable pub flat_map : (Text → List Text) → List Text → List Text
flat_map f [] = []
flat_map f (s ∷ ss) = f s ++ flat_map f ss

-- All that may stay of a text behind a match at its start.
unfoldable pub rests : Pattern → Text → List Text
unfolding behind_blanks behind_some_blanks has_prefix upper_byte codes flat_map
rests blanks s = behind_blanks s
rests some_blanks s = behind_some_blanks s
rests (word w) s = if has_prefix (to_upper s) (codes w) then drop (length (codes w)) s ∷ [] else []
rests (optional p) s = s ∷ rests p s
rests (either p q) s = rests p s ++ rests q s
rests (then_by p q) s = flat_map (rests q) (rests p s)

abbrev any_empty : List Text → Bool
any_empty [] = false
any_empty ([] ∷ ss) = true
any_empty ((c ∷ s) ∷ ss) = any_empty ss

-- MatchString of an anchored pattern.
unfoldable pub match_string : Pattern → Text → Bool
unfolding rests
match_string p s = any_empty (rests p s)
