-- ===== src/Syntax/Joins/Sizes.antt =====
-- The loops over the joins of a FROM clause come to an end: a text gets shorter from round to round.
use unique_dialect.Base.{
  ℕ, suc, ◌+◌, ◌≤◌, ◌<◌, Bool, [], ◌∷◌, none, some, ◌≡◌, subst, arith, choose-ind, if-ind, length,
  length-drop, take, drop, ltb,
}
use unique_dialect.Syntax.Joins.{
  Found, earlier, find_join, JoinParts, split_condition, split_join_remainder, behind,
}
use unique_dialect.Syntax.Scan.{find_keyword_from, find_top_level_keyword}
use unique_dialect.Text.{
  Text, codes, trim_left, keep_right, trim_right, trim_by, trim_space, trim_prefix,
}

pub length-trim_left : (p : ℕ → Bool) (s : Text) → length (trim_left p s) ≤ length s
unfolding trim_left
length-trim_left p [] = omega arith
length-trim_left p (c ∷ s) = ground (arith, length-trim_left p s)

length-keep_right : (p : ℕ → Bool) (c : ℕ) (r : Text) → length (keep_right p c r) ≤ suc (length r)
unfolding keep_right
length-keep_right p c [] = ground arith
length-keep_right p c (d ∷ r) = omega arith

length-trim_right : (p : ℕ → Bool) (s : Text) → length (trim_right p s) ≤ length s
unfolding trim_right
length-trim_right p [] = omega arith
length-trim_right p (c ∷ s) =
    omega (arith, length-trim_right p s, length-keep_right p c (trim_right p s))

pub length-trim_space : (s : Text) → length (trim_space s) ≤ length s
unfolding trim_space trim_by
length-trim_space s = omega (arith, length-trim_right _ (trim_left _ s), length-trim_left _ s)

pub length-trim_prefix : (s p : Text) → length (trim_prefix s p) ≤ length s
unfolding trim_prefix
length-trim_prefix s p = ground (arith, length-drop (length p) s)

-- A place of a keyword is one of a text that is not empty.
pub find_top_level_keyword-pos :
    (s keyword : Text) (i : ℕ) → find_top_level_keyword s keyword ≡ some i → 0 < length s
unfolding find_top_level_keyword find_keyword_from
find_top_level_keyword-pos [] keyword i e = cc
find_top_level_keyword-pos (c ∷ s) keyword i e = omega arith

-- A found join: its text and its keyword are not empty.
abbrev pub IsJoin : Text → Found → Type 0
IsJoin s none = Unit
IsJoin s (some (i, keyword)) = (0 < length s) × (0 < length keyword)

earlier-IsJoin :
    (s : Text) (best : Found) (keyword : Text)
    → 0 < length keyword
    → IsJoin s best
    → IsJoin s (earlier s best keyword)
unfolding earlier
earlier-IsJoin s best keyword pos h =
    choose-ind (IsJoin s) (find_top_level_keyword s keyword) _ _ h λ i e.
      choose-ind (IsJoin s) best _ _ (find_top_level_keyword-pos s keyword i e, pos)
        λ b same.
          if-ind (IsJoin s) (ltb i b.0) _ _
            (λ first. (find_top_level_keyword-pos s keyword i e, pos))
            λ later. subst (IsJoin s) same h

pub find_join-IsJoin : (s : Text) → IsJoin s (find_join s)
unfolding find_join codes
find_join-IsJoin s = earlier-IsJoin s _ (codes " JOIN ") (omega arith) (
    earlier-IsJoin s _ (codes " INNER JOIN ") (omega arith)
      (earlier-IsJoin s none (codes " LEFT JOIN ") (omega arith) tt))

pub length-behind :
    (s : Text) (i : ℕ) (keyword : Text)
    → IsJoin s (some (i, keyword))
    → length (behind s i keyword) < length s
length-behind s i keyword (h, k) =
    omega
      (arith, length-trim_space (drop (i + length keyword) s), length-drop (i + length keyword) s)

length-split_condition : (table s : Text) → length (split_condition table s).tail ≤ length s
unfolding split_condition
length-split_condition table s =
    choose-ind (λ (p : JoinParts). length p.tail ≤ length s) (find_join s) _ _ (omega arith)
      λ next e. omega (arith, length-trim_space (drop next.0 s), length-drop next.0 s)

pub length-split_join_remainder : (s : Text) → length (split_join_remainder s).tail ≤ length s
unfolding split_join_remainder
length-split_join_remainder s =
    choose-ind (λ (p : JoinParts). length p.tail ≤ length s)
      (find_top_level_keyword s (codes " ON ")) _ _ (omega arith)
      λ i e. omega (
        arith,
        length-split_condition (trim_space (take i s)) (trim_space (drop (i + 4) s)),
        length-trim_space (drop (i + 4) s),
        length-drop (i + 4) s,
      )
