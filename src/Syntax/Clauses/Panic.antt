-- ===== src/Syntax/Clauses/Panic.antt =====
-- Clauses that begin within the keyword of another make parseSelect panic.
use unique_dialect.Base.{
  ℕ, ◌+◌, ◌-◌, ◌≤◌, Bool, true, false, List, [], Option, none, some, ◌≡◌, ◌↔◌, refl, arith,
  if◌then◌else◌, length, take, drop, ◌&&◌, leb,
}
use unique_dialect.Outcome.{Outcome, ok, err, panic, ◌>>=◌, Returns}
use unique_dialect.Syntax.Clauses.Select.{Apart, ClausesApart, parse_after_from-Returns}
use unique_dialect.Syntax.Clauses.{
  find, narrow, order_end, where_clause, order_clause, parse_after_from,
}
use unique_dialect.Syntax.{Join, LimitClause}
use unique_dialect.Text.{Text, codes, slice, trim_space}

-- What returns, returns from its first part.
pub Returns-first :
    {A B : Type 0} (m : Outcome A) (f : A → Outcome B) → Returns (m >>= f) → Returns m
Returns-first (ok a) f h = tt
Returns-first (err e) f h = tt
Returns-first panic f h = h

slice-bounds : (s : Text) (lo hi : ℕ) → Returns (slice s lo hi) → lo ≤ hi
unfolding slice
slice-bounds s lo hi h = bounds (leb lo hi) (leb hi (length s)) refl h
  where
    bounds :
        (a b : Bool)
        → leb lo hi ≡ a
        → Returns (if a && b then ok (take (hi - lo) (drop lo s)) else panic)
        → lo ≤ hi
    bounds true b e h = ground arith
    bounds false b e h = absurd h

-- A text that a slice gives, and the rest of the way from it.
pub slice_then :
    {B : Type 0} (s : Text) (lo hi : ℕ) (f : Text → Outcome B)
    → Returns (slice s lo hi >>= f)
    → (t : Text) × Returns (f t)
unfolding slice
slice_then s lo hi f h = after (leb lo hi && leb hi (length s)) h
  where
    after :
        (b : Bool)
        → Returns ((if b then ok (take (hi - lo) (drop lo s)) else panic) >>= f)
        → (t : Text) × Returns (f t)
    after true h = (_, h)
    after false h = absurd h

narrow-le : (w : ℕ) (o : Option ℕ) (end : ℕ) → narrow w o end ≤ end
narrow-le w none end = omega arith
narrow-le w (some i) end = ground arith

Apart-narrow :
    (size w : ℕ) (o : Option ℕ) (end : ℕ) → w + size ≤ narrow w o end → Apart size (some w) o
Apart-narrow size w none end h = tt
Apart-narrow size w (some i) end h = λ lt. ground arith

Apart-order_end :
    (size o : ℕ) (l : Option ℕ) (end : ℕ) → o + size ≤ order_end o l end → Apart size (some o) l
Apart-order_end size o none end h = tt
Apart-order_end size o (some l) end h = λ lt. ground arith

pub where_clause-Apart :
    (after : Text) (w o l : Option ℕ)
    → Returns (where_clause after w o l)
    → Apart 7 w o × Apart 7 w l
unfolding where_clause codes
where_clause-Apart after none o l h = (tt, tt)
where_clause-Apart after (some w) o l h =
    let n = length after in
    let le =
      slice-bounds after (w + 7) (narrow w l (narrow w o n))
        (Returns-first (slice after (w + 7) (narrow w l (narrow w o n))) _ h) in
    (
      Apart-narrow 7 w o n (omega (arith, narrow-le w l (narrow w o n))),
      Apart-narrow 7 w l (narrow w o n) le,
    )

pub order_clause-Apart :
    (after : Text) (o l : Option ℕ) → Returns (order_clause after o l) → Apart 10 o l
unfolding order_clause codes
order_clause-Apart after none l h = tt
order_clause-Apart after (some o) l h = Apart-order_end 10 o l (length after) (
    slice-bounds after (o + 10) (order_end o l (length after))
      (Returns-first (slice after (o + 10) (order_end o l (length after))) _ h))

-- The WHERE clause that is read, and the rest of the way from it.
pub where_then :
    {B : Type 0} (after : Text) (w o l : Option ℕ) (f : Text → Outcome B)
    → Returns (where_clause after w o l >>= f)
    → (t : Text) × Returns (f t)
unfolding where_clause
where_then after none o l f h = ([], h)
where_then after (some w) o l f h =
    let (t, h') =
      slice_then after _ _ _
        (assoc (slice after (w + 7) (narrow w l (narrow w o (length after)))) h) in
    (trim_space t, h')
  where
    assoc :
        (m : Outcome Text)
        → Returns (m >>= (λ t. ok (trim_space t)) >>= f)
        → Returns (m >>= λ t. f (trim_space t))
    assoc (ok t) h = h
    assoc (err e) h = h
    assoc panic h = h

module _ (parse_from_and_joins : Text → Text × List Join) (parse_limit : Text → Outcome LimitClause)
    (limit_returns : (s : Text) → Returns (parse_limit s)) where
  parse_after_from-Apart :
      (columns : List Text) (after : Text)
      → Returns (parse_after_from parse_from_and_joins parse_limit columns after)
      → ClausesApart after
  unfolding parse_after_from
  parse_after_from-Apart columns after h =
      let w = find after (codes " WHERE ") in
      let o = find after (codes " ORDER BY ") in
      let l = find after (codes " LIMIT ") in
      let (part, h1) = slice_then after 0 _ _ h in
      let (wo, wl) =
        where_clause-Apart after w o l (Returns-first (where_clause after w o l) _ h1) in
      let (cond, h2) = where_then after w o l _ h1 in
      (wo, wl, order_clause-Apart after o l (Returns-first (order_clause after o l) _ h2))

  -- parseSelect comes back from behind the column list, with a statement or an error, exactly for the texts in which no
  -- clause begins within ` WHERE ` or ` ORDER BY `; on all others it panics.
  pub parse_after_from-Returns_iff :
      (columns : List Text) (after : Text)
      → Returns (parse_after_from parse_from_and_joins parse_limit columns after)
        ↔ ClausesApart after
  parse_after_from-Returns_iff columns after = (
    parse_after_from-Apart columns after,
    parse_after_from-Returns parse_from_and_joins parse_limit limit_returns columns after,
  )
