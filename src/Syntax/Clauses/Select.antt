-- ===== src/Syntax/Clauses/Select.antt =====
-- When the clauses of a SELECT can be sliced.
use unique_dialect.Base.{
  ℕ, ◌+◌, ◌≤◌, ◌<◌, List, [], ◌∷◌, Option, none, some, ◌≡◌, ◌≢◌, refl, subst, arith, choose-ind,
  if-ind, length, ltb, All,
}
use unique_dialect.Outcome.{Outcome, Returns, >>=-Returns}
use unique_dialect.Syntax.Clauses.Safe.{slice-Returns, find-fits}
use unique_dialect.Syntax.Clauses.{
  find, earliest_positive, narrow, order_end, end_or, where_clause, order_clause, limit_clause,
  parse_after_from,
}
use unique_dialect.Syntax.{Join, LimitClause}
use unique_dialect.Text.{Text, codes}

-- A clause that begins behind another begins behind its keyword of the given length.
abbrev pub Apart : ℕ → Option ℕ → Option ℕ → Type 0
Apart size none later = Unit
Apart size (some i) none = Unit
Apart size (some i) (some j) = i < j → i + size ≤ j

-- The clauses behind WHERE and ORDER BY do not begin within these keywords.
abbrev pub ClausesApart : Text → Type 0
ClausesApart after =
    Apart 7 (find after (codes " WHERE ")) (find after (codes " ORDER BY "))
    × Apart 7 (find after (codes " WHERE ")) (find after (codes " LIMIT "))
    × Apart 10 (find after (codes " ORDER BY ")) (find after (codes " LIMIT "))

-- An index of a keyword of the given length in a text of another.
abbrev pub Fits : ℕ → ℕ → Option ℕ → Type 0
Fits n size none = Unit
Fits n size (some i) = i + size ≤ n

pub find-Fits :
    (after keyword : Text)
    → keyword ≢ []
    → Fits (length after) (length keyword) (find after keyword)
find-Fits after keyword ne = at (find after keyword) refl
  where
    at : (o : Option ℕ) → find after keyword ≡ o → Fits (length after) (length keyword) o
    at none e = tt
    at (some i) e = find-fits after keyword i ne e

narrow-bounds :
    (size n w : ℕ) (o : Option ℕ) (end : ℕ)
    → w + size ≤ end
    → end ≤ n
    → Apart size (some w) o
    → (w + size ≤ narrow w o end) × (narrow w o end ≤ n)
narrow-bounds size n w none end h k a = (h, k)
narrow-bounds size n w (some i) end h k a = ground (arith, a)

order_end-bounds :
    (n o : ℕ) (l : Option ℕ)
    → o + 10 ≤ n
    → Apart 10 (some o) l
    → Fits n 7 l
    → (o + 10 ≤ order_end o l n) × (order_end o l n ≤ n)
order_end-bounds n o none h a f = (h, omega arith)
order_end-bounds n o (some l) h a f = ground (arith, a)

pub where_clause-Returns :
    (after : Text) (w o l : Option ℕ)
    → Fits (length after) 7 w
    → Apart 7 w o
    → Apart 7 w l
    → Returns (where_clause after w o l)
unfolding where_clause codes
where_clause-Returns after none o l f a b = tt
where_clause-Returns after (some w) o l f a b =
    let n = length after in
    let (h, k) = narrow-bounds 7 n w o n f (omega arith) a in
    let (h', k') = narrow-bounds 7 n w l (narrow w o n) h k b in
    slice-Returns after (w + 7) (narrow w l (narrow w o n)) _ h' k' λ t. tt

pub order_clause-Returns :
    (after : Text) (o l : Option ℕ)
    → Fits (length after) 10 o
    → Fits (length after) 7 l
    → Apart 10 o l
    → Returns (order_clause after o l)
unfolding order_clause codes
order_clause-Returns after none l f g a = tt
order_clause-Returns after (some o) l f g a =
    let n = length after in
    let (h, k) = order_end-bounds n o l f a g in
    slice-Returns after (o + 10) (order_end o l n) _ h k λ t. tt

pub Fits-weaken : (n size : ℕ) (o : Option ℕ) → Fits n size o → Fits n 0 o
Fits-weaken n size none f = tt
Fits-weaken n size (some i) f = omega arith

pub earliest_positive-Fits :
    (n : ℕ) (values : List (Option ℕ)) → All (Fits n 0) values → Fits n 0 (earliest_positive values)
unfolding earliest_positive
earliest_positive-Fits n [] h = tt
earliest_positive-Fits n (none ∷ values) (h, hs) = earliest_positive-Fits n values hs
earliest_positive-Fits n (some v ∷ values) (h, hs) =
    choose-ind (Fits n 0) (earliest_positive values) _ _ h λ w e.
      let rest = subst (Fits n 0) e (earliest_positive-Fits n values hs) in
      if-ind (Fits n 0) (ltb w v) _ _ (λ _. rest) (λ _. h)

pub end_or-le : (n : ℕ) (o : Option ℕ) → Fits n 0 o → end_or n o ≤ n
end_or-le n none h = omega arith
end_or-le n (some i) h = omega arith

module _ (parse_from_and_joins : Text → Text × List Join) (parse_limit : Text → Outcome LimitClause)
    (limit_returns : (s : Text) → Returns (parse_limit s)) where
  limit_clause-Returns :
      (after : Text) (l : Option ℕ)
      → Fits (length after) 7 l
      → Returns (limit_clause parse_from_and_joins parse_limit after l)
  unfolding limit_clause codes
  limit_clause-Returns after none f = tt
  limit_clause-Returns after (some l) f =
      slice-Returns after (l + 7) (length after) _ f (omega arith)
        λ t. >>=-Returns (parse_limit t) _ (limit_returns t) λ _ _. tt

  pub parse_after_from-Returns :
      (columns : List Text) (after : Text)
      → ClausesApart after
      → Returns (parse_after_from parse_from_and_joins parse_limit columns after)
  unfolding parse_after_from
  parse_after_from-Returns columns after (wo, wl, ol) =
      let w = find after (codes " WHERE ") in
      let o = find after (codes " ORDER BY ") in
      let l = find after (codes " LIMIT ") in
      let fw = find-Fits after (codes " WHERE ") λ z. cc in
      let fo = find-Fits after (codes " ORDER BY ") λ z. cc in
      let fl = find-Fits after (codes " LIMIT ") λ z. cc in
      let n = length after in
      let all : All (Fits n 0) (w ∷ o ∷ l ∷ []) =
        (Fits-weaken n 7 w fw, (Fits-weaken n 10 o fo, (Fits-weaken n 7 l fl, tt))) in
      let e = earliest_positive (w ∷ o ∷ l ∷ []) in
      slice-Returns after 0 (end_or n e) _ (omega arith)
        (end_or-le n e (earliest_positive-Fits n (w ∷ o ∷ l ∷ []) all))
        λ part.
          >>=-Returns (where_clause after w o l) _ (where_clause-Returns after w o l fw wo wl)
            λ cond _.
              >>=-Returns (order_clause after o l) _ (order_clause-Returns after o l fo fl ol)
                λ order _.
                  >>=-Returns (limit_clause parse_from_and_joins parse_limit after l) _
                    (limit_clause-Returns after l fl) λ _ _. tt
