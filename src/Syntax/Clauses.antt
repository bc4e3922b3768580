-- ===== src/Syntax/Clauses.antt =====
-- The parts of a statement that internal/syntax/mysql/parser.go and
-- internal/syntax/postgres/parser.go read by the same text: earliestPositive, parseAssignments,
-- normalizeIdentifiers, and parseSelect, parseUpdate and parseDelete up to the reading of the
-- joins and of the limit. An index of -1 is `none`; a slice of the source panics out of range.
pub mod Safe
pub mod Select
pub mod Panic
use unique_dialect.Base.{
  ℕ, ◌+◌, Bool, true, false, ◌&&◌, List, [], ◌∷◌, ◌++◌, Option, none, some, ltb, leb, ◌==◌,
  if◌then◌else◌, choose, length, take, drop, map,
}
use unique_dialect.Outcome.{Outcome, ok, err, panic, ◌>>=◌, invalid_assignment}
use unique_dialect.Syntax.Scan.{find_top_level_keyword, split_top_level_csv, strip_identifier}
use unique_dialect.Syntax.{Join, LimitClause, Assignment, Statement, raw, select, update, delete}
use unique_dialect.Text.{
  Text, codes, trim_space, trim_suffix, has_prefix, to_upper, upper_byte, index_byte, slice,
}

abbrev pub find : Text → Text → Option ℕ
find = find_top_level_keyword

unfoldable pub earliest_positive : List (Option ℕ) → Option ℕ
earliest_positive [] = none
earliest_positive (none ∷ values) = earliest_positive values
earliest_positive (some v ∷ values) =
    choose (earliest_positive values) (some v) λ w. if ltb w v then some w else some v

unfoldable pub normalize_identifiers : List Text → List Text
unfolding strip_identifier
normalize_identifiers = map strip_identifier

-- One part of parseAssignments: strings.SplitN at the first `=`.
unfoldable pub parse_assignment : Text → Outcome Assignment
unfolding index_byte trim_space
parse_assignment part =
    choose (index_byte b'=' part) (err invalid_assignment)
      λ i. ok (record { column = trim_space (take i part); value = trim_space (drop (i + 1) part) })

unfoldable pub parse_assignment_list : List Text → Outcome (List Assignment)
unfolding parse_assignment
parse_assignment_list [] = ok []
parse_assignment_list (p ∷ ps) = do
  a ← parse_assignment p
  rest ← parse_assignment_list ps
  ok (a ∷ rest)

unfoldable pub parse_assignments : Text → Outcome (List Assignment)
unfolding parse_assignment_list split_top_level_csv
parse_assignments input = parse_assignment_list (split_top_level_csv input)

-- The end of a clause that starts at `from`: the first of the later clauses behind it.
abbrev pub narrow : ℕ → Option ℕ → ℕ → ℕ
narrow from none end = end
narrow from (some i) end = if ltb from i && ltb i end then i else end

-- `limitIdx > orderIdx` picks the limit as the end of the ORDER BY clause.
abbrev pub order_end : ℕ → Option ℕ → ℕ → ℕ
order_end order none end = end
order_end order (some limit) end = if ltb order limit then limit else end

abbrev pub end_or : ℕ → Option ℕ → ℕ
end_or end none = end
end_or end (some i) = i

-- The text of the WHERE clause; this slice panics if the next clause begins within ` WHERE `.
unfoldable pub where_clause : Text → Option ℕ → Option ℕ → Option ℕ → Outcome Text
unfolding slice trim_space codes
where_clause after none order limit = ok []
where_clause after (some w) order limit = do
  t ← slice after (w + length (codes " WHERE ")) (narrow w limit (narrow w order (length after)))
  ok (trim_space t)

unfoldable pub order_clause : Text → Option ℕ → Option ℕ → Outcome (List Text)
unfolding slice split_top_level_csv codes
order_clause after none limit = ok []
order_clause after (some o) limit = do
  t ← slice after (o + length (codes " ORDER BY ")) (order_end o limit (length after))
  ok (split_top_level_csv t)

module _ (parse_from_and_joins : Text → Text × List Join)
    (parse_limit : Text → Outcome LimitClause) where
  unfoldable pub limit_clause : Text → Option ℕ → Outcome (Option LimitClause)
  unfolding slice codes
  limit_clause after none = ok none
  limit_clause after (some l) = do
    t ← slice after (l + length (codes " LIMIT ")) (length after)
    limit ← parse_limit t
    ok (some limit)

  -- parseSelect behind the column list.
  unfoldable pub parse_after_from : List Text → Text → Outcome Statement
  unfolding slice find_top_level_keyword earliest_positive where_clause order_clause limit_clause
  parse_after_from columns after = do
    let where_idx = find after (codes " WHERE ")
    let order_idx = find after (codes " ORDER BY ")
    let limit_idx = find after (codes " LIMIT ")
    let from_idx = earliest_positive (where_idx ∷ order_idx ∷ limit_idx ∷ [])
    from_part ← slice after 0 (end_or (length after) from_idx)
    let (from, joins) = parse_from_and_joins (trim_space from_part)
    where_expr ← where_clause after where_idx order_idx limit_idx
    order_by ← order_clause after order_idx limit_idx
    limit ← limit_clause after limit_idx
    ok (
        select (record {
          columns = columns;
          from = from;
          joins = joins;
          where_expr = where_expr;
          order_by = order_by;
          limit = limit;
        }))

  unfoldable pub parse_select : Text → Outcome Statement
  unfolding slice find_top_level_keyword split_top_level_csv parse_after_from
  parse_select sql = do
    tail ← slice sql (length (codes "SELECT ")) (length sql)
    let body = trim_space tail
    let rest = λ (from_idx : ℕ). do
      columns ← slice body 0 from_idx
      after ← slice body (from_idx + length (codes " FROM ")) (length body)
      parse_after_from (split_top_level_csv columns) after
    choose (find body (codes " FROM ")) (ok (raw sql)) rest

-- The assignments and the condition of an UPDATE.
unfoldable pub parse_after_set : Text → Text → Outcome Statement
unfolding slice find_top_level_keyword parse_assignments codes
parse_after_set table after = do
  let with_where = λ (w : ℕ). do
    part ← slice after 0 w
    cond ← slice after (w + length (codes " WHERE ")) (length after)
    assignments ← parse_assignments part
    ok (update (record { table = table; assignments = assignments; where_expr = trim_space cond }))
  let whole = do
    assignments ← parse_assignments after
    ok (update (record { table = table; assignments = assignments; where_expr = [] }))
  choose (find after (codes " WHERE ")) (whole) with_where

unfoldable pub parse_update : Text → Outcome Statement
unfolding slice find_top_level_keyword parse_after_set codes
parse_update sql = do
  tail ← slice sql (length (codes "UPDATE ")) (length sql)
  let body = trim_space tail
  let rest = λ (set_idx : ℕ). do
    table ← slice body 0 set_idx
    after ← slice body (set_idx + length (codes " SET ")) (length body)
    parse_after_set (trim_space table) after
  choose (find body (codes " SET ")) (ok (raw sql)) rest

unfoldable pub parse_delete : Text → Outcome Statement
unfolding slice find_top_level_keyword codes
parse_delete sql = do
  tail ← slice sql (length (codes "DELETE FROM ")) (length sql)
  let body = trim_space tail
  let rest = λ (w : ℕ). do
    table ← slice body 0 w
    cond ← slice body (w + length (codes " WHERE ")) (length body)
    ok (delete (record { table = trim_space table; where_expr = trim_space cond }))
  choose (find body (codes " WHERE "))
      (ok (delete (record { table = trim_space body; where_expr = [] }))) rest

-- The prefixes that Parse tells the statements apart by.
unfoldable pub starts : Text → Text → Bool
unfolding has_prefix upper_byte
starts trimmed keyword = has_prefix (to_upper trimmed) keyword
