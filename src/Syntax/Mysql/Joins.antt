-- ===== src/Syntax/Mysql/Joins.antt =====
-- parseFromAndJoins and appendJoins of internal/syntax/mysql/parser.go. A call with more fuel
-- than bytes of text comes to an end, so the wrappers never return their default.
pub mod Fuel
use unique_dialect.Base.{
  ℕ, zero, suc, List, [], ◌∷◌, ◌++◌, Option, none, some, if◌then◌else◌, length, take, choose,
  or_else,
}
use unique_dialect.Syntax.Joins.{find_join, split_join_remainder, join_of, behind}
use unique_dialect.Syntax.{Join}
use unique_dialect.Text.{Text, trim_space, is_empty}

-- appendJoins; `none` means that the fuel ran out.
unfoldable pub append_joins_fuel : ℕ → Text → List Join → Option (List Join)
unfolding find_join split_join_remainder trim_space
append_joins_fuel zero remaining joins = none
append_joins_fuel (suc fuel) remaining joins =
    let next = λ (found : ℕ × Text).
      let parts = split_join_remainder (behind remaining found.0 found.1) in
      append_joins_fuel fuel (trim_space parts.tail) (joins ++ join_of found.1 parts ∷ []) in
    if is_empty (trim_space remaining)
    then some joins
    else choose (find_join remaining) (some joins) next

unfoldable pub append_joins : Text → List Join → List Join
unfolding append_joins_fuel
append_joins remaining joins =
    or_else joins (append_joins_fuel (suc (length remaining)) remaining joins)

-- The loop of parseFromAndJoins.
unfoldable pub from_and_joins_fuel : ℕ → Text → List Join → Option (Text × List Join)
unfolding find_join split_join_remainder append_joins trim_space
from_and_joins_fuel zero base joins = none
from_and_joins_fuel (suc fuel) base joins =
    let next = λ (found : ℕ × Text).
      let base_table = trim_space (take found.0 base) in
      let parts = split_join_remainder (behind base found.0 found.1) in
      let joins' = joins ++ join_of found.1 parts ∷ [] in
      let base' = trim_space parts.tail in
      let again = from_and_joins_fuel fuel base' joins' in
      if is_empty base_table then again else some (base_table, append_joins base' joins') in
    choose (find_join base) (some (trim_space base, joins)) next

unfoldable pub parse_from_and_joins : Text → Text × List Join
unfolding from_and_joins_fuel
parse_from_and_joins input =
    let base = trim_space input in
    or_else (base, []) (from_and_joins_fuel (suc (length base)) base [])
