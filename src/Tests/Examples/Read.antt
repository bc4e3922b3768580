-- ===== src/Tests/Examples/Read.antt =====
-- The theorems on the parsers at concrete inputs.
use unique_dialect.Base.{[], none, some, ◌≡◌, refl, arith}
use unique_dialect.Outcome.{Returns}
use unique_dialect.Syntax.Clauses.{starts}
use unique_dialect.Syntax.Joins.Heads.{IsEarliest, Behind, find_join-IsEarliest}
use unique_dialect.Syntax.Joins.{find_join}
use unique_dialect.Syntax.Mysql
use unique_dialect.Syntax.Mysql.Joins.Fuel.{
  append_joins_round, append_joins_lem, parse_from_and_joins-fuel,
}
use unique_dialect.Syntax.Mysql.Joins.{append_joins, from_and_joins_fuel}
use unique_dialect.Syntax.Mysql.Safe.{mysql_parse-Returns}
use unique_dialect.Syntax.Postgres
use unique_dialect.Syntax.Postgres.Joins.Fuel.{collect_joins-fuel}
use unique_dialect.Syntax.Postgres.Joins.{joins_fuel, collect_joins}
use unique_dialect.Syntax.Postgres.Safe.{postgres_parse-Returns}
use unique_dialect.Text.{Text, codes, trim_space}

abbrev broken_insert : Text
broken_insert = codes "INSERT INTO t (a, 'b) VALUES (1"

mysql_parse-Returns_example : Returns (Mysql.parse broken_insert)
unfolding Mysql.syntax_trim starts codes
mysql_parse-Returns_example = mysql_parse-Returns broken_insert refl refl

postgres_parse-Returns_example : Returns (Postgres.parse broken_insert)
unfolding Postgres.syntax_trim starts codes
postgres_parse-Returns_example = postgres_parse-Returns broken_insert refl refl

abbrev clauses : Text
clauses = codes "t WHERE ORDER BY b"

abbrev joined : Text
joined = codes "t JOIN u ON x = y LEFT JOIN v ON z = w"

append_joins_lem_example :
    append_joins joined [] ≡ append_joins_round (λ js. js) append_joins joined []
append_joins_lem_example = append_joins_lem joined []

parse_from_and_joins-fuel_example :
    from_and_joins_fuel 50 (trim_space joined) [] ≡ some (Mysql.Joins.parse_from_and_joins joined)
unfolding codes trim_space
parse_from_and_joins-fuel_example = parse_from_and_joins-fuel 50 joined (omega arith)

collect_joins-fuel_example : joins_fuel 50 joined [] ≡ some (collect_joins joined)
unfolding codes
collect_joins-fuel_example = collect_joins-fuel 50 joined (omega arith)

find_join-IsEarliest_example :
    IsEarliest (codes " JOIN v ON z = w") (find_join (codes " JOIN v ON z = w"))
    × Behind (find_join (trim_space (codes " JOIN v ON z = w")))
find_join-IsEarliest_example = find_join-IsEarliest (codes " JOIN v ON z = w")

-- The second of two joins, as it comes to appendJoins, is not found.
lost_join : find_join (codes "JOIN v ON z = w") ≡ none
unfolding find_join codes
lost_join = refl
