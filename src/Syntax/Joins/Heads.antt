-- ===== src/Syntax/Joins/Heads.antt =====
-- findJoin on trimmed texts, as appendJoins calls it.
use unique_dialect.Base.{
  ℕ, zero, suc, ◌<◌, ◌≤◌, ◌⊎◌, inl, inr, refl, sym, ap, ◌∙◌, Option, if◌then◌else◌, choose, true,
  [], ◌∷◌, none, some, ◌≡◌, subst, arith, choose-ind, if-ind, ltb,
}
use unique_dialect.Syntax.Joins.{Found, earlier, find_join}
use unique_dialect.Syntax.Scan.Keyword.{is_hit, find_top_level_keyword-some}
use unique_dialect.Syntax.Scan.{find_top_level_keyword}
use unique_dialect.Text.Trim.{HeadKept, trim_by-HeadKept}
use unique_dialect.Text.{Text, codes, is_space, has_prefix, upper_byte, trim_space}

-- A keyword that begins with a space stands at the head of no text that begins with something else.
head_miss : (s keyword : Text) → HeadKept is_space s → is_hit s (b' ' ∷ keyword) 0 ≡ true → ⊥
unfolding has_prefix upper_byte is_space
head_miss [] keyword h hit = ground arith
head_miss (c ∷ s) keyword h hit = ground arith

index_pos :
    (s keyword : Text) (i : ℕ)
    → HeadKept is_space s
    → find_top_level_keyword s (b' ' ∷ keyword) ≡ some i
    → 0 < i
index_pos s keyword zero h e =
    let (hit, _, _) = find_top_level_keyword-some s (b' ' ∷ keyword) zero (λ z. cc) e in
    absurd (head_miss s keyword h hit)
index_pos s keyword (suc i) h e = omega arith

abbrev pub Behind : Found → Type 0
Behind none = Unit
Behind (some (i, keyword)) = 0 < i

earlier-Behind :
    (s : Text) (best : Found) (keyword : Text)
    → HeadKept is_space s
    → Behind best
    → Behind (earlier s best (b' ' ∷ keyword))
unfolding earlier
earlier-Behind s best keyword h b =
    choose-ind Behind (find_top_level_keyword s (b' ' ∷ keyword)) _ _ b λ i e.
      choose-ind Behind best _ _ (index_pos s keyword i h e) λ found same.
        if-ind Behind (ltb i found.0) _ _ (λ _. index_pos s keyword i h e) λ _. subst Behind same b

find_join-Behind : (s : Text) → HeadKept is_space s → Behind (find_join s)
unfolding find_join codes
find_join-Behind s h =
    earlier-Behind s _ (codes "JOIN ") h
      (earlier-Behind s _ (codes "INNER JOIN ") h (earlier-Behind s none (codes "LEFT JOIN ") h tt))

-- The places of a keyword do not lie before the join that was found.
abbrev pub IsCovered : Text → Found → Text → Type 0
IsCovered s none keyword = find_top_level_keyword s keyword ≡ none
IsCovered s (some (i, k)) keyword = (j : ℕ) → find_top_level_keyword s keyword ≡ some j → i ≤ j

abbrev pub IsJoinKeyword : Text → Type 0
IsJoinKeyword k = (k ≡ codes " LEFT JOIN ") ⊎ ((k ≡ codes " INNER JOIN ") ⊎ (k ≡ codes " JOIN "))

abbrev pub IsPlace : Text → Found → Type 0
IsPlace s none = Unit
IsPlace s (some (i, k)) = IsJoinKeyword k × (find_top_level_keyword s k ≡ some i)

same_place : (i j : ℕ) → some i ≡ some j → i ≡ j
same_place i j e = ap (λ o. choose o i (λ x. x)) e

earlier-IsPlace :
    (s : Text) (best : Found) (keyword : Text)
    → IsJoinKeyword keyword
    → IsPlace s best
    → IsPlace s (earlier s best keyword)
unfolding earlier
earlier-IsPlace s best keyword k p =
    choose-ind (IsPlace s) (find_top_level_keyword s keyword) _ _ p λ i e.
      choose-ind (IsPlace s) best _ _ (k, e)
        λ found same.
          if-ind (IsPlace s) (ltb i found.0) _ _ (λ _. (k, e)) λ _. subst (IsPlace s) same p

earlier-IsCovered :
    (s : Text) (best : Found) (keyword : Text) → IsCovered s (earlier s best keyword) keyword
unfolding earlier
earlier-IsCovered s best keyword = go best (find_top_level_keyword s keyword) refl
  where
    go :
        (best : Found) (o : Option ℕ)
        → find_top_level_keyword s keyword ≡ o
        → IsCovered s
            (choose o best λ index.
              choose best
                (some (index, keyword))
                λ b. if ltb index b.0 then some (index, keyword) else some b)
            keyword
    go none none e = e
    go (some b) none e = λ j e'. cc
    go none (some i) e = λ j e'. omega (arith, same_place i j (sym e ∙ e'))
    go (some b) (some i) e =
        if-ind (λ f. IsCovered s f keyword) (ltb i b.0) _ _
          (λ lt j e'. omega (arith, same_place i j (sym e ∙ e')))
          λ ge j e'. (let same = same_place i j (sym e ∙ e') in ground arith)

earlier-keeps :
    (s : Text) (best : Found) (keyword other : Text)
    → IsCovered s best other
    → IsCovered s (earlier s best keyword) other
unfolding earlier
earlier-keeps s best keyword other = go best (find_top_level_keyword s keyword) refl
  where
    go :
        (best : Found) (o : Option ℕ)
        → find_top_level_keyword s keyword ≡ o
        → IsCovered s best other
        → IsCovered s
            (choose o best λ index.
              choose best
                (some (index, keyword))
                λ b. if ltb index b.0 then some (index, keyword) else some b)
            other
    go best none e h = h
    go none (some i) e h = λ j e'. cc
    go (some b) (some i) e h =
        if-ind (λ f. IsCovered s f other) (ltb i b.0) _ _
          (λ lt j e'. (let before = h j e' in ground arith)) λ ge. h

-- The earliest place of the three keywords, or none if none of them has a place.
abbrev pub IsEarliest : Text → Found → Type 0
IsEarliest s f =
    IsPlace s f
    × IsCovered s f (codes " LEFT JOIN ")
    × IsCovered s f (codes " INNER JOIN ")
    × IsCovered s f (codes " JOIN ")

-- findJoin returns the earliest place at which a keyword of a join stands outside quotes and
-- parentheses, with that keyword, and none only if there is no such place. In a trimmed text that is
-- never the first byte.
pub find_join-IsEarliest :
    (s : Text) → IsEarliest s (find_join s) × Behind (find_join (trim_space s))
unfolding find_join
find_join-IsEarliest s =
    let l = earlier s none (codes " LEFT JOIN ") in
    let n = earlier s l (codes " INNER JOIN ") in
    (
      (
        earlier-IsPlace s n _ (inr (inr refl))
            (earlier-IsPlace s l _ (inr (inl refl)) (earlier-IsPlace s none _ (inl refl) tt)),
        earlier-keeps s n (codes " JOIN ") (codes " LEFT JOIN ") (
            earlier-keeps s l (codes " INNER JOIN ") (codes " LEFT JOIN ")
              (earlier-IsCovered s none (codes " LEFT JOIN "))),
        earlier-keeps s n (codes " JOIN ") (codes " INNER JOIN ")
            (earlier-IsCovered s l (codes " INNER JOIN ")),
        earlier-IsCovered s n (codes " JOIN "),
      ),
      find_join-Behind (trim_space s) (trimmed s),
    )
  where
    trimmed : (s : Text) → HeadKept is_space (trim_space s)
    trimmed s = unfold trim_space in trim_by-HeadKept is_space s
