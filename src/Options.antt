-- ===== src/Options.antt =====
-- types.go: the options of the driver, their defaults, and the data source names that
-- BuildDriverDSN hands to the drivers of the target databases.
pub mod Ambiguous
pub mod Order
use unique_dialect.Base.{
  ℕ, zero, suc, ◌+◌, ◌/◌, ◌%◌, Bool, true, false, not, ◌&&◌, ◌||◌, List, [], ◌∷◌, ◌++◌, Option,
  none, some, map, ltb, leb, ◌==◌, if◌then◌else◌, choose,
}
use unique_dialect.Dialect.{Dialect, mysql, postgres, sqlite, oracle, other, dialect_text}
use unique_dialect.Outcome.{Outcome, ok, err, missing_database, unsupported_driver}
use unique_dialect.Text.Decimal.{ℤ, pos, negsuc, itoa}
use unique_dialect.Text.{Text, codes, lower_byte, text_eq, equal_fold, is_empty, join}
use unique_dialect.Translator.{TranslatorOptions}

pub data DriverName : Type 0 where
  driver_mysql driver_postgres driver_sqlite driver_oracle : DriverName
  -- A string that is none of the four.
  driver_other : Text → DriverName

-- A map is a list of its entries, and a nil map is `none`.
pub record ConnectionOptions : Type 0 where
  pub host : Text
  pub port : ℤ
  pub username : Text
  pub password : Text
  pub database : Text
  pub parameters : Option (List (Text × Text))

pub record LoggingOptions : Type 0 where
  pub level : Text
  pub log_failed_sql : Bool
  pub translate_failure_log_path : Text
  pub execution_failure_log_path : Text

-- `E` is the type of the provider, an interface that may be nil.
pub record EncryptionOptions (E : Type 0) : Type 0 where
  pub enabled : Bool
  pub key : Text
  pub provider : Option E

pub record Options (E : Type 0) : Type 0 where
  pub input_dialect : Dialect
  pub target_dialect : Dialect
  pub driver : DriverName
  pub connection : ConnectionOptions
  pub translator : TranslatorOptions
  pub logging : LoggingOptions
  pub encryption : EncryptionOptions E

unfoldable pub driver_for_dialect : Dialect → DriverName
driver_for_dialect postgres = driver_postgres
driver_for_dialect sqlite = driver_sqlite
driver_for_dialect oracle = driver_oracle
driver_for_dialect mysql = driver_mysql
driver_for_dialect (other _) = driver_mysql

-- The three kinds of fields that have a default.
unfoldable pub dialect_or : Dialect → Dialect → Dialect
unfolding dialect_text
dialect_or d default = if is_empty (dialect_text d) then default else d

unfoldable pub driver_or : DriverName → DriverName → DriverName
driver_or (driver_other []) default = default
driver_or (driver_other (c ∷ s)) default = driver_other (c ∷ s)
driver_or driver_mysql default = driver_mysql
driver_or driver_postgres default = driver_postgres
driver_or driver_sqlite default = driver_sqlite
driver_or driver_oracle default = driver_oracle

unfoldable pub text_or : Text → Text → Text
text_or [] default = default
text_or (c ∷ s) default = c ∷ s

unfoldable pub normalized_logging : LoggingOptions → LoggingOptions
unfolding text_or codes
normalized_logging l =
    if l.log_failed_sql
    then record l {
      translate_failure_log_path =
          text_or l.translate_failure_log_path (codes "uniquedialect-translate-failures.jsonl");
      execution_failure_log_path =
          text_or l.execution_failure_log_path (codes "uniquedialect-execution-failures.jsonl");
    }
    else l

unfoldable pub normalized_connection : ConnectionOptions → ConnectionOptions
normalized_connection c = record c { parameters = some (choose c.parameters [] (λ ps. ps)) }

unfoldable pub normalized : {E : Type 0} → Options E → Options E
unfolding driver_for_dialect dialect_or driver_or normalized_logging normalized_connection
normalized o =
    let target = dialect_or o.target_dialect o.input_dialect in
    record o {
      target_dialect = target;
      driver = driver_or o.driver (driver_for_dialect target);
      translator = record {
        input_dialect = dialect_or o.translator.input_dialect o.input_dialect;
        target_dialect = dialect_or o.translator.target_dialect target;
      };
      connection = normalized_connection o.connection;
      logging = normalized_logging o.logging;
    }

-- The entry of a map, or the empty text.
unfoldable pub entry : Text → List (Text × Text) → Text
unfolding text_eq
entry k [] = []
entry k ((j, v) ∷ ps) = if text_eq j k then v else entry k ps

-- The order of strings, byte for byte, and sort.Strings.
unfoldable pub text_le : Text → Text → Bool
text_le [] t = true
text_le (a ∷ s) [] = false
text_le (a ∷ s) (b ∷ t) = ltb a b || (a == b && text_le s t)

unfoldable pub insert_text : Text → List Text → List Text
unfolding text_le
insert_text k [] = k ∷ []
insert_text k (j ∷ js) = if text_le k j then k ∷ j ∷ js else j ∷ insert_text k js

unfoldable pub sorted_keys : List (Text × Text) → List Text
unfolding insert_text
sorted_keys [] = []
sorted_keys ((k, v) ∷ ps) = insert_text k (sorted_keys ps)

-- url.QueryEscape.
abbrev pub is_unreserved : ℕ → Bool
is_unreserved c =
    (leb b'0' c && leb c b'9')
    || (leb b'a' c && leb c b'z')
    || (leb b'A' c && leb c b'Z')
    || c == b'-'
    || c == b'_'
    || c == b'.'
    || c == b'~'

abbrev pub hex_digit : ℕ → ℕ
hex_digit d = if ltb d 10 then d + 48 else d + 55

unfoldable pub query_escape : Text → Text
query_escape [] = []
query_escape (c ∷ s) =
    let rest = query_escape s in
    if is_unreserved c
    then c ∷ rest
    else if c == b' '
    then b'+' ∷ rest
    else b'%' ∷ hex_digit (c / 16) ∷ hex_digit (c % 16) ∷ rest

abbrev pub parameters_of : ConnectionOptions → List (Text × Text)
parameters_of c = choose c.parameters [] (λ ps. ps)

-- url.Values.Encode on the parameters.
unfoldable pub encoded_parameters : List (Text × Text) → Text
unfolding query_escape entry sorted_keys join codes
encoded_parameters ps =
    join (codes "&")
      (map (λ k. query_escape k ++ codes "=" ++ query_escape (entry k ps)) (sorted_keys ps))

abbrev pub is_empty_map : List (Text × Text) → Bool
is_empty_map [] = true
is_empty_map (p ∷ ps) = false

abbrev pub port_or : ℤ → ℕ → ℤ
port_or (pos zero) default = pos default
port_or (pos (suc n)) default = pos (suc n)
port_or (negsuc n) default = negsuc n

unfoldable pub mysql_query : List (Text × Text) → Text
unfolding encoded_parameters codes
mysql_query ps = if is_empty_map ps then [] else codes "?" ++ encoded_parameters ps

unfoldable pub mysql_dsn : ConnectionOptions → Text
unfolding text_or itoa mysql_query codes
mysql_dsn c =
    c.username
    ++ (if is_empty c.password then [] else codes ":" ++ c.password)
    ++ codes "@tcp("
    ++ text_or c.host (codes "127.0.0.1")
    ++ codes ":"
    ++ itoa (port_or c.port 3306)
    ++ codes ")/"
    ++ c.database
    ++ mysql_query (parameters_of c)

-- A part of PostgreSQL's source name that is left out if its value is empty.
abbrev pub part : Text → Text → List Text
part name value = if is_empty value then [] else (name ++ value) ∷ []

unfoldable pub parameter_part : List (Text × Text) → Text → Text
unfolding entry text_eq lower_byte codes
parameter_part ps k =
    (if equal_fold k (codes "timezone") then codes "TimeZone" else k) ++ codes "=" ++ entry k ps

unfoldable pub postgres_parts : ConnectionOptions → List Text
unfolding text_or itoa sorted_keys parameter_part codes
postgres_parts c =
    let ps = parameters_of c in
    (codes "host=" ++ text_or c.host (codes "127.0.0.1"))
    ∷ (codes "port=" ++ itoa (port_or c.port 5432))
    ∷ (part (codes "user=") c.username
        ++ part (codes "password=") c.password
        ++ part (codes "dbname=") c.database
        ++ map (parameter_part ps) (sorted_keys ps))

unfoldable pub postgres_dsn : ConnectionOptions → Text
unfolding postgres_parts join codes
postgres_dsn c = join (codes " ") (postgres_parts c)

unfoldable pub driver_dsn : DriverName → ConnectionOptions → Outcome Text
unfolding mysql_dsn postgres_dsn
driver_dsn driver_sqlite c = if is_empty c.database then err missing_database else ok c.database
driver_dsn driver_mysql c = ok (mysql_dsn c)
driver_dsn driver_postgres c = ok (postgres_dsn c)
driver_dsn driver_oracle c = err unsupported_driver
driver_dsn (driver_other _) c = err unsupported_driver

unfoldable pub build_driver_dsn : {E : Type 0} → Options E → Outcome Text
unfolding normalized driver_dsn
build_driver_dsn o = driver_dsn (normalized o).driver (normalized o).connection
