-- ===== src/Tests/Parsing.antt =====
-- Runs of the two parsers.
use unique_dialect.Base.{[], ◌∷◌, none, some, ◌≡◌, refl}
use unique_dialect.Outcome.{ok, panic}
use unique_dialect.Syntax.Clauses.{normalize_identifiers}
use unique_dialect.Syntax.Mysql
use unique_dialect.Syntax.Postgres
use unique_dialect.Syntax.{select, insert}
use unique_dialect.Text.Decimal.{pos}
use unique_dialect.Text.{codes}

mysql_select :
    Mysql.parse
      (codes "select a, f(b) from t LEFT JOIN u ON x = y where a > 1 order by a limit 5, 10")
    ≡ ok (
        select (record {
          columns = codes "a" ∷ codes "f(b)" ∷ [];
          from = codes "t";
          joins = record { kind = codes "LEFT JOIN"; table = codes "u"; on = codes "x = y" } ∷ [];
          where_expr = codes "a > 1";
          order_by = codes "a" ∷ [];
          limit = some (record { offset = some (pos 5); count = pos 10 });
        }))
unfolding Mysql.parse codes normalize_identifiers
mysql_select = refl

postgres_lower_case_join :
    Postgres.parse (codes "SELECT a FROM t JOIN u ON x = y left join v ON z = w")
    ≡ ok (
        select (record {
          columns = codes "a" ∷ [];
          from = codes "t";
          joins =
              record { kind = codes "JOIN"; table = codes "u"; on = codes "x = y" }
              ∷ record { kind = codes "LEFT JOIN"; table = codes "left join v"; on = codes "z = w" }
              ∷ [];
          where_expr = [];
          order_by = [];
          limit = none;
        }))
unfolding Postgres.parse codes
postgres_lower_case_join = refl

mysql_panic : Mysql.parse (codes "SELECT a FROM t WHERE ORDER BY b") ≡ panic
unfolding Mysql.parse codes normalize_identifiers
mysql_panic = refl

second_row_dropped :
    Mysql.parse (codes "INSERT INTO t (a) VALUES (1), (2)")
    ≡ ok (
        insert (record {
          table = codes "t";
          columns = codes "a" ∷ [];
          values = codes "1" ∷ [];
          conflict = none;
        }))
unfolding Mysql.parse codes normalize_identifiers
second_row_dropped = refl

-- The second of two joins loses its kind, or is lost.
mysql_left_lost :
    Mysql.parse (codes "SELECT a FROM t JOIN u ON x = y LEFT JOIN v ON z = w")
    ≡ ok (
        select (record {
          columns = codes "a" ∷ [];
          from = codes "t";
          joins =
              record { kind = codes "JOIN"; table = codes "u"; on = codes "x = y" }
              ∷ record { kind = codes "JOIN"; table = codes "v"; on = codes "z = w" }
              ∷ [];
          where_expr = [];
          order_by = [];
          limit = none;
        }))
unfolding Mysql.parse codes normalize_identifiers
mysql_left_lost = refl

mysql_join_lost :
    Mysql.parse (codes "SELECT a FROM t JOIN u ON x = y JOIN v ON z = w")
    ≡ ok (
        select (record {
          columns = codes "a" ∷ [];
          from = codes "t";
          joins = record { kind = codes "JOIN"; table = codes "u"; on = codes "x = y" } ∷ [];
          where_expr = [];
          order_by = [];
          limit = none;
        }))
unfolding Mysql.parse codes normalize_identifiers
mysql_join_lost = refl
