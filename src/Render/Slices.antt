-- ===== src/Render/Slices.antt =====
-- The functions of internal/render/render.go that slice a text: parts of rewriteCreateTableConstraint
-- and rewriteCreateTableType, and rewriteMySQLOffsetLimit. A slice out of range is a panic here; that
-- the callers take the value is justified by the theorem in Bounds.
pub mod Bounds
use unique_dialect.Base.{
  ℕ, ◌+◌, Bool, List, [], ◌∷◌, ◌++◌, Option, none, some, leb, if◌then◌else◌, choose, length,
}
use unique_dialect.Dialect.{Dialect, mysql, postgres, sqlite, oracle, other}
use unique_dialect.Outcome.{Outcome, ok, ◌>>=◌}
use unique_dialect.Render.Regexp.{offset_limit_match}
use unique_dialect.Syntax.Scan.{find_top_level_keyword}
use unique_dialect.Text.{
  Text, codes, trim_space, is_empty, has_prefix, to_upper, upper_byte, index_byte, slice,
}

-- The mark before a placeholder's number, in the dialects that number them.
abbrev pub placeholder_mark : Dialect → Option ℕ
placeholder_mark postgres = some b'$'
placeholder_mark oracle = some b':'
placeholder_mark mysql = none
placeholder_mark sqlite = none
placeholder_mark (other _) = none

-- `match[:openIdx]` of rewriteCreateTableType.
unfoldable pub before_paren : Text → Outcome Text
unfolding index_byte slice
before_paren t = choose (index_byte b'(' t) (ok t) λ i. slice t 0 i

-- The name of a UNIQUE constraint is moved before the word; `none` where the source returns the
-- text as it is, for there is no name.
unfoldable pub name_unique_at : Text → ℕ → Outcome (Option Text)
unfolding slice trim_space codes
name_unique_at t i = do
  between ← slice t (length (codes "UNIQUE ")) i
  behind ← slice t i (length t)
  ok (
      if is_empty (trim_space between)
      then none
      else some (codes "CONSTRAINT " ++ trim_space between ++ codes " UNIQUE " ++ behind))

unfoldable pub name_unique : Text → Outcome (Option Text)
unfolding index_byte name_unique_at codes
name_unique t =
    choose (index_byte b'(' t) (ok none)
      λ i. if leb i (length (codes "UNIQUE ")) then ok none else name_unique_at t i

unfoldable pub without_constraint : Text → Outcome (Option Text)
unfolding slice codes
without_constraint t = do
  behind ← slice t (length (codes "CONSTRAINT FOREIGN KEY")) (length t)
  ok (some (codes "FOREIGN KEY" ++ behind))

unfoldable pub move_constraint_name : Text → Outcome (Option Text)
unfolding name_unique without_constraint has_prefix upper_byte codes
move_constraint_name t =
    let upper = to_upper t in
    if has_prefix upper (codes "UNIQUE ")
    then name_unique t
    else if has_prefix upper (codes "CONSTRAINT FOREIGN KEY")
    then without_constraint t
    else ok (some t)

-- The clause that stands for `LIMIT offset, count`.
unfoldable pub offset_limit_clause : Dialect → Text → Text → Option Text
unfolding codes
offset_limit_clause postgres offset count =
    some (codes " LIMIT " ++ count ++ codes " OFFSET " ++ offset)
offset_limit_clause oracle offset count =
    some (codes " OFFSET " ++ offset ++ codes " ROWS FETCH NEXT " ++ count ++ codes " ROWS ONLY")
offset_limit_clause mysql offset count = none
offset_limit_clause sqlite offset count = none
offset_limit_clause (other _) offset count = none

unfoldable pub rewrite_offset_limit_at : Text → Dialect → ℕ → Outcome Text
unfolding offset_limit_match offset_limit_clause slice trim_space codes
rewrite_offset_limit_at input to limit_idx = do
  limit ← slice input (limit_idx + length (codes " LIMIT ")) (length input)
  choose (offset_limit_match (trim_space limit)) (ok input) λ p. do
    before ← slice input 0 limit_idx
    ok (choose (offset_limit_clause to p.0 p.1) input λ clause. trim_space before ++ clause)

unfoldable pub rewrite_mysql_offset_limit : Text → Dialect → Outcome Text
unfolding find_top_level_keyword rewrite_offset_limit_at codes
rewrite_mysql_offset_limit input to = choose (placeholder_mark to) (ok input) λ sign.
    choose (find_top_level_keyword input (codes " LIMIT ")) (ok input)
      λ limit_idx. rewrite_offset_limit_at input to limit_idx
