-- ===== src/Syntax/Clauses/Safe.antt =====
-- The slices of the parsers stay within their texts: every clause reader but the one of WHERE and
-- ORDER BY comes back without a panic.
use unique_dialect.Base.{
  ℕ, suc, ◌+◌, ◌-◌, ◌≤◌, ◌<◌, true, List, [], ◌∷◌, Option, some, ◌≡◌, ◌≢◌, arith, choose,
  choose-ind, if-ind, length, take, drop, ◌==◌,
}
use unique_dialect.Outcome.{Outcome, ok, ◌>>=◌, Returns, >>=-Returns}
use unique_dialect.Syntax.Clauses.{
  find, parse_assignment, parse_assignment_list, parse_assignments, parse_after_set, parse_update,
  parse_delete, starts,
}
use unique_dialect.Syntax.Scan.Keyword.{
  has_prefix-length, length-to_upper, find_top_level_keyword-some,
}
use unique_dialect.Syntax.Scan.Paren.{find_matching_paren-some}
use unique_dialect.Syntax.Scan.{find_matching_paren, split_top_level_csv}
use unique_dialect.Text.{Text, codes, to_upper, index_byte, slice, trim_space}

pub slice_within :
    (s : Text) (lo hi : ℕ)
    → lo ≤ hi
    → hi ≤ length s
    → slice s lo hi ≡ ok (take (hi - lo) (drop lo s))
unfolding slice
slice_within s lo hi h k = ground arith

pub slice-Returns {κ} :
    {B : Type κ} (s : Text) (lo hi : ℕ) (f : Text → Outcome B)
    → lo ≤ hi
    → hi ≤ length s
    → ((t : Text) → Returns (f t))
    → Returns (slice s lo hi >>= f)
slice-Returns s lo hi f h k rest = rw (slice_within s lo hi h k) (rest (take (hi - lo) (drop lo s)))

pub find-fits :
    (s keyword : Text) (i : ℕ)
    → keyword ≢ []
    → find s keyword ≡ some i
    → i + length keyword ≤ length s
find-fits s keyword i ne e = (find_top_level_keyword-some s keyword i ne e).1

pub starts-length : (s keyword : Text) → starts s keyword ≡ true → length keyword ≤ length s
unfolding starts
starts-length s keyword h =
    omega (arith, has_prefix-length (to_upper s) keyword h, length-to_upper s)

pub index_byte-fits : (b : ℕ) (s : Text) (i : ℕ) → index_byte b s ≡ some i → i < length s
unfolding index_byte
index_byte-fits b [] i e = cc
index_byte-fits b (c ∷ s) i e =
    if-ind (λ o. o ≡ some i → i < suc (length s)) (c == b) _ _ (λ h e. ground arith)
      (λ h.
        choose-ind (λ o. o ≡ some i → i < suc (length s)) (index_byte b s) _ _ (λ e. cc)
          λ j at e. let behind = index_byte-fits b s j at in ground arith)
      e

pub find_matching_paren-fits :
    (s : Text) (left right : ℕ)
    → find_matching_paren s left ≡ some right
    → (left < right) × (right < length s)
find_matching_paren-fits s left right e =
    let (before, within, _, _) = find_matching_paren-some s left right e in (before, within)

-- A branch on an index that is in range returns if both ways do.
pub choose-Returns {κ} :
    {A : Type 0} {B : Type κ} (o : Option A) (d : Outcome B) (f : A → Outcome B)
    → Returns d
    → ((a : A) → o ≡ some a → Returns (f a))
    → Returns (choose o d f)
choose-Returns o d f = choose-ind Returns o d f

parse_assignment_list-Returns : (ps : List Text) → Returns (parse_assignment_list ps)
unfolding parse_assignment_list
parse_assignment_list-Returns [] = tt
parse_assignment_list-Returns (p ∷ ps) =
    >>=-Returns (parse_assignment p) _ (one p)
      λ a _. >>=-Returns (parse_assignment_list ps) _ (parse_assignment_list-Returns ps) λ _ _. tt
  where
    one : (p : Text) → Returns (parse_assignment p)
    one p = choose-Returns (index_byte b'=' p) _ _ tt λ i e. tt

pub parse_assignments-Returns : (s : Text) → Returns (parse_assignments s)
unfolding parse_assignments
parse_assignments-Returns s = parse_assignment_list-Returns (split_top_level_csv s)

parse_after_set-Returns : (table after : Text) → Returns (parse_after_set table after)
unfolding parse_after_set codes
parse_after_set-Returns table after =
    choose-Returns (find after (codes " WHERE ")) _ _
      (>>=-Returns (parse_assignments after) _ (parse_assignments-Returns after) λ _ _. tt)
      λ w e.
        let fits = find-fits after (codes " WHERE ") w (λ z. cc) e in
        slice-Returns after 0 w _ (omega arith) (omega arith) λ part.
          slice-Returns after (w + 7) (length after) _ (omega arith) (omega arith) λ cond.
            >>=-Returns (parse_assignments part) _ (parse_assignments-Returns part) λ _ _. tt

pub parse_update-Returns : (sql : Text) → 7 ≤ length sql → Returns (parse_update sql)
unfolding parse_update codes
parse_update-Returns sql h = slice-Returns sql 7 (length sql) _ h (omega arith) λ tail.
    let body = trim_space tail in
    choose-Returns (find body (codes " SET ")) _ _ tt λ i e.
      let fits = find-fits body (codes " SET ") i (λ z. cc) e in
      slice-Returns body 0 i _ (omega arith) (omega arith) λ table.
        slice-Returns body (i + 5) (length body) _ (omega arith) (omega arith)
          λ after. parse_after_set-Returns (trim_space table) after

pub parse_delete-Returns : (sql : Text) → 12 ≤ length sql → Returns (parse_delete sql)
unfolding parse_delete codes
parse_delete-Returns sql h = slice-Returns sql 12 (length sql) _ h (omega arith) λ tail.
    let body = trim_space tail in
    choose-Returns (find body (codes " WHERE ")) _ _ tt λ w e.
      let fits = find-fits body (codes " WHERE ") w (λ z. cc) e in
      slice-Returns body 0 w _ (omega arith) (omega arith)
        λ table. slice-Returns body (w + 7) (length body) _ (omega arith) (omega arith) λ cond. tt
