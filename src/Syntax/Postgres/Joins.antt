-- ===== src/Syntax/Postgres/Joins.antt =====
-- parseFromAndJoins of internal/syntax/postgres/parser.go. A call with more fuel than bytes of
-- text comes to an end, so the wrapper never returns its default.
pub mod Fuel
use unique_dialect.Base.{
  ℕ, zero, suc, ◌+◌, List, [], ◌∷◌, ◌++◌, Option, none, some, if◌then◌else◌, length, take, drop,
  choose, or_else,
}
use unique_dialect.Syntax.Joins.{Found, find_join}
use unique_dialect.Syntax.Scan.{find_top_level_keyword}
use unique_dialect.Syntax.{Join}
use unique_dialect.Text.{Text, codes, trim_space, trim_prefix, is_empty}

-- The keyword of findJoin, trimmed; empty where there is none.
abbrev pub keyword_of : Found → Text
keyword_of none = []
keyword_of (some (_, keyword)) = trim_space keyword

-- A space before a text, so that a join keyword at its head is found.
abbrev pub spaced : Text → Text
spaced s = b' ' ∷ s

-- The loop `for remainder != ""`; `none` means that the fuel ran out.
unfoldable pub joins_fuel : ℕ → Text → List Join → Option (List Join)
unfolding find_join find_top_level_keyword codes trim_space trim_prefix
joins_fuel zero remainder joins = none
joins_fuel (suc fuel) remainder joins =
    let keyword = keyword_of (find_join (spaced remainder)) in
    let rest = trim_space (trim_prefix remainder keyword) in
    let with_on = λ (on_index : ℕ).
      let table = trim_space (take on_index rest) in
      let after_on = trim_space (drop (on_index + length (codes " ON ")) rest) in
      let last = joins ++ record { kind = keyword; table = table; on = trim_space after_on } ∷ [] in
      let more = λ (next : ℕ × Text).
        let on = trim_space (take next.0 after_on) in
        joins_fuel fuel (trim_space (drop next.0 after_on))
          (joins ++ record { kind = keyword; table = table; on = on } ∷ []) in
      choose (find_join (spaced after_on)) (some last) more in
    if is_empty remainder
    then some joins
    else choose (find_top_level_keyword rest (codes " ON ")) (some joins) with_on

unfoldable pub collect_joins : Text → List Join
unfolding joins_fuel
collect_joins remainder = or_else [] (joins_fuel (suc (length remainder)) remainder [])

unfoldable pub parse_from_and_joins : Text → Text × List Join
unfolding find_join collect_joins trim_space
parse_from_and_joins input =
    let base = trim_space input in
    elim (find_join base) [
      | none ↦ (base, [])
      | some (index, _) ↦
          (trim_space (take index base), collect_joins (trim_space (drop index base)))
    ]
