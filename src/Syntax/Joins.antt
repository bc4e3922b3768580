-- ===== src/Syntax/Joins.antt =====
-- The joins of a FROM clause: findJoin and splitJoinRemainder of internal/syntax/mysql/parser.go
-- (findJoin of internal/syntax/postgres/parser.go is the same text), and the loops that collect
-- the joins. An index from findTopLevelKeyword lies in its text, so slices there are take and drop.
pub mod Sizes
pub mod Heads
use unique_dialect.Base.{
  ℕ, zero, suc, ◌+◌, Bool, true, false, List, [], ◌∷◌, ◌++◌, Option, none, some, ltb, if◌then◌else◌,
  choose, length, take, drop,
}
use unique_dialect.Syntax.Scan.{find_top_level_keyword}
use unique_dialect.Syntax.{Join}
use unique_dialect.Text.{Text, codes, trim_space, trim_prefix, is_empty}

abbrev pub Found : Type 0
Found = Option (ℕ × Text)

-- One round of the loop over the three keywords.
unfoldable pub earlier : Text → Found → Text → Found
earlier input best keyword = choose (find_top_level_keyword input keyword) best λ index.
    choose best (some (index, keyword)) λ b. if ltb index b.0 then some (index, keyword) else some b

unfoldable pub find_join : Text → Found
unfolding earlier find_top_level_keyword codes
find_join input =
    earlier input (earlier input (earlier input none (codes " LEFT JOIN ")) (codes " INNER JOIN "))
      (codes " JOIN ")

-- What stands before the join, its table, its condition, and the text behind it.
pub record JoinParts : Type 0 where
  pub table : Text
  pub on : Text
  pub tail : Text

-- The text behind ` ON `, up to the next join.
unfoldable pub split_condition : Text → Text → JoinParts
unfolding find_join trim_space
split_condition table after_on =
    choose (find_join after_on) (record { table = table; on = after_on; tail = [] })
      λ next. record {
        table = table;
        on = trim_space (take next.0 after_on);
        tail = trim_space (drop next.0 after_on);
      }

unfoldable pub split_join_remainder : Text → JoinParts
unfolding split_condition find_top_level_keyword codes
split_join_remainder input =
    choose (find_top_level_keyword input (codes " ON "))
      (record { table = input; on = []; tail = [] })
      λ on_index.
        split_condition (trim_space (take on_index input))
          (trim_space (drop (on_index + length (codes " ON ")) input))

abbrev pub join_of : Text → JoinParts → Join
join_of keyword parts = record {
  kind = trim_space keyword;
  table = trim_space parts.table;
  on = trim_space parts.on;
}

-- The text behind a join keyword at `index`.
abbrev pub behind : Text → ℕ → Text → Text
behind base index keyword = trim_space (drop (index + length keyword) base)
