-- ===== src/Render/Slices/Bounds.antt =====
-- The slices of internal/render/render.go.
use unique_dialect.Base.{ℕ, ◌+◌, ◌≤◌, arith, choose-ind, if-ind, leb, length}
use unique_dialect.Dialect.{Dialect}
use unique_dialect.Outcome.{Outcome, ok, err, panic, ◌>>=◌}
use unique_dialect.Render.Regexp.{offset_limit_match}
use unique_dialect.Render.Slices.{
  placeholder_mark, before_paren, name_unique_at, name_unique, without_constraint,
  move_constraint_name, rewrite_offset_limit_at, rewrite_mysql_offset_limit,
}
use unique_dialect.Syntax.Clauses.Safe.{slice_within, find-fits, index_byte-fits}
use unique_dialect.Syntax.Scan.Keyword.{has_prefix-length, length-to_upper}
use unique_dialect.Syntax.Scan.{find_top_level_keyword}
use unique_dialect.Text.{Text, IsAscii, codes, to_upper, has_prefix, index_byte, slice, trim_space}

-- The call comes back with a value.
abbrev pub IsValue : {A : Type 0} → Outcome A → Type 0
IsValue (ok a) = Unit
IsValue (err e) = ⊥
IsValue panic = ⊥

slice-IsValue :
    {B : Type 0} (s : Text) (lo hi : ℕ) (f : Text → Outcome B)
    → lo ≤ hi
    → hi ≤ length s
    → ((t : Text) → IsValue (f t))
    → IsValue (slice s lo hi >>= f)
slice-IsValue s lo hi f h k rest = rw (slice_within s lo hi h k) (rest _)

before_paren-IsValue : (t : Text) → IsValue (before_paren t)
unfolding before_paren
before_paren-IsValue t =
    choose-ind IsValue (index_byte b'(' t) _ _ tt
      λ i e. rw (slice_within t 0 i (omega arith) (omega (arith, index_byte-fits b'(' t i e))) tt

name_unique_at-IsValue : (t : Text) (i : ℕ) → 7 ≤ i → i ≤ length t → IsValue (name_unique_at t i)
unfolding name_unique_at codes
name_unique_at-IsValue t i h k =
    slice-IsValue t 7 i _ h k λ between. slice-IsValue t i (length t) _ k (omega arith) λ behind. tt

name_unique-IsValue : (t : Text) → IsValue (name_unique t)
unfolding name_unique codes
name_unique-IsValue t = choose-ind IsValue (index_byte b'(' t) _ _ tt λ i e.
    if-ind IsValue (leb i 7) _ _ (λ _. tt)
      λ far.
        let fits = index_byte-fits b'(' t i e in
        name_unique_at-IsValue t i (ground arith) (omega arith)

move_constraint_name-IsValue : (t : Text) → IsValue (move_constraint_name t)
unfolding move_constraint_name without_constraint codes
move_constraint_name-IsValue t =
    if-ind IsValue (has_prefix (to_upper t) (codes "UNIQUE ")) _ _ (λ _. name_unique-IsValue t)
      λ _.
        if-ind IsValue (has_prefix (to_upper t) (codes "CONSTRAINT FOREIGN KEY")) _ _
          (λ h.
            slice-IsValue t 22 (length t) _
              (omega (
                arith,
                has_prefix-length (to_upper t) (codes "CONSTRAINT FOREIGN KEY") h,
                length-to_upper t,
              ))
              (omega arith) λ behind. tt)
          λ _. tt

rewrite_offset_limit_at-IsValue :
    (input : Text) (to : Dialect) (i : ℕ)
    → i + 7 ≤ length input
    → IsValue (rewrite_offset_limit_at input to i)
unfolding rewrite_offset_limit_at codes
rewrite_offset_limit_at-IsValue input to i h =
    slice-IsValue input (i + 7) (length input) _ h (omega arith) λ limit.
      choose-ind IsValue (offset_limit_match (trim_space limit)) _ _ tt
        λ p e. slice-IsValue input 0 i _ (omega arith) (omega arith) λ before. tt

rewrite_mysql_offset_limit-IsValue :
    (input : Text) (to : Dialect) → IsValue (rewrite_mysql_offset_limit input to)
unfolding rewrite_mysql_offset_limit codes
rewrite_mysql_offset_limit-IsValue input to =
    choose-ind IsValue (placeholder_mark to) _ _ tt λ sign _.
      choose-ind IsValue (find_top_level_keyword input (codes " LIMIT ")) _ _ tt λ i e.
        rewrite_offset_limit_at-IsValue input to i (find-fits input (codes " LIMIT ") i (λ z. cc) e)

-- On texts of ASCII characters, each slice of a text in the renderer lies within it: those that move the name of a
-- UNIQUE constraint and take off the word CONSTRAINT, that which takes off the width of an integer
-- type, and those around a LIMIT with an offset. Each of these functions comes back with a value.
pub render_slices-IsValue :
    (t : Text) (to : Dialect)
    → IsAscii t
    → IsValue (before_paren t)
      × IsValue (move_constraint_name t)
      × IsValue (rewrite_mysql_offset_limit t to)
render_slices-IsValue t to ascii = (
  before_paren-IsValue t,
  move_constraint_name-IsValue t,
  rewrite_mysql_offset_limit-IsValue t to,
)
