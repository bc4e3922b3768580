-- ===== src/Tests/Examples/Open.antt =====
-- The theorems on the options at concrete inputs, and source names.
use unique_dialect.Base.{true, false, List, [], ◌∷◌, ◌++◌, none, ◌≡◌, refl}
use unique_dialect.Dialect.{mysql, postgres, other}
use unique_dialect.Options.Ambiguous.{with_secret, postgres_dsn-ambiguous}
use unique_dialect.Options.Order.{Reordered, swapped, with_parameters, driver_dsn-Reordered}
use unique_dialect.Options.{
  ConnectionOptions, Options, driver_postgres, driver_other, postgres_dsn, driver_dsn,
  build_driver_dsn,
}
use unique_dialect.Outcome.{ok}
use unique_dialect.Text.Decimal.{pos}
use unique_dialect.Text.{Text, codes, text_eq}

abbrev plain : ConnectionOptions
plain = record {
  host = [];
  port = pos 0;
  username = codes "u";
  password = codes "p";
  database = codes "d";
  parameters = none;
}

abbrev settings : List (Text × Text)
settings = (codes "timezone", codes "UTC") ∷ (codes "charset", codes "utf 8") ∷ []

abbrev settings_reversed : List (Text × Text)
settings_reversed = (codes "charset", codes "utf 8") ∷ (codes "timezone", codes "UTC") ∷ []

abbrev bare : Options Text
bare = record {
  input_dialect = mysql;
  target_dialect = other [];
  driver = driver_other [];
  connection = plain;
  translator = record { input_dialect = other []; target_dialect = postgres };
  logging = record {
    level = [];
    log_failed_sql = true;
    translate_failure_log_path = [];
    execution_failure_log_path = codes "x";
  };
  encryption = record { enabled = false; key = []; provider = none };
}

mysql_name :
    build_driver_dsn (record bare { connection = with_parameters plain settings })
    ≡ ok (codes "u:p@tcp(127.0.0.1:3306)/d?charset=utf+8&timezone=UTC")
unfolding build_driver_dsn codes
mysql_name = refl

postgres_name :
    postgres_dsn (with_parameters plain settings)
    ≡ codes "host=127.0.0.1 port=5432 user=u password=p dbname=d charset=utf 8 TimeZone=UTC"
unfolding postgres_dsn codes
postgres_name = refl

postgres_dsn-ambiguous_example :
    postgres_dsn (with_secret plain (codes "p" ++ (codes " dbname=" ++ codes "d")) [])
    ≡ postgres_dsn (with_secret plain (codes "p") (codes "d"))
unfolding codes
postgres_dsn-ambiguous_example =
    postgres_dsn-ambiguous plain (codes "p") (codes "d") (λ e. cc) (λ e. cc)

settings-Reordered : Reordered settings settings_reversed
unfolding text_eq codes
settings-Reordered = swapped refl

driver_dsn-Reordered_example :
    driver_dsn driver_postgres (with_parameters plain settings)
    ≡ driver_dsn driver_postgres (with_parameters plain settings_reversed)
driver_dsn-Reordered_example =
    driver_dsn-Reordered driver_postgres plain settings settings_reversed settings-Reordered
