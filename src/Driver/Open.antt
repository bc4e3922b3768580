-- ===== src/Driver/Open.antt =====
-- sql_driver.go: the connector, and the calls of a connection that pass through to the driver of
-- the target database. The drivers and the parser of their configurations are parameters.
use unique_dialect.Base.{Bool, true, Option, choose}
use unique_dialect.Driver.{NamedValue, Call}
use unique_dialect.Logging.{SqlFailureLogger, new_sql_failure_logger}
use unique_dialect.Options.{
  DriverName, driver_mysql, driver_postgres, driver_sqlite, driver_oracle, driver_other, Options,
  normalized, build_driver_dsn,
}
use unique_dialect.Outcome.{Outcome, ok, err, ◌>>=◌, invalid_configuration, unsupported_driver}
use unique_dialect.Text.{Text}
use unique_dialect.Translator.{Translator, new_translator}

-- A driver with a data source name, or what pgx makes of its configuration `C`.
pub data BaseConnector (C : Type 0) : Type 0 where
  static_connector : DriverName → Text → BaseConnector C
  pgx_connector : C → BaseConnector C

pub record Connector (E C : Type 0) : Type 0 where
  pub opts : Options E
  pub translator : Translator
  pub logger : Option SqlFailureLogger
  pub base : BaseConnector C

module _ {C : Type 0} (parse_config : Text → Option C) where
  unfoldable pub base_connector : DriverName → Text → Outcome (BaseConnector C)
  base_connector driver_sqlite dsn = ok (static_connector driver_sqlite dsn)
  base_connector driver_mysql dsn = ok (static_connector driver_mysql dsn)
  base_connector driver_postgres dsn =
      choose (parse_config dsn) (err invalid_configuration) λ config. ok (pgx_connector config)
  base_connector driver_oracle dsn = err unsupported_driver
  base_connector (driver_other name) dsn = err unsupported_driver

  unfoldable pub build_base_connector : {E : Type 0} → Options E → Outcome (BaseConnector C)
  unfolding build_driver_dsn base_connector
  build_base_connector opts = do dsn ← build_driver_dsn opts; base_connector opts.driver dsn

  abbrev pub connector_of : {E : Type 0} → Options E → Outcome (Connector E C)
  connector_of opts = do
    translator ← new_translator opts.translator
    base ← build_base_connector opts
    ok (record {
      opts = opts;
      translator = translator;
      logger = new_sql_failure_logger opts.logging;
      base = base;
    })

  unfoldable pub new_connector : {E : Type 0} → Options E → Outcome (Connector E C)
  unfolding normalized new_translator build_base_connector new_sql_failure_logger
  new_connector opts = connector_of (normalized opts)

  -- sql.OpenDB only keeps the connector.
  unfoldable pub open_with_options : {E : Type 0} → Options E → Outcome (Connector E C)
  unfolding normalized new_connector
  open_with_options opts = new_connector (normalized opts)

-- The methods of a connection of the driver without a statement; `T` stands for its transactions.
pub record BaseSession (S O T : Type 0) : Type 0 where
  pub pinger : Option (Call S Unit Unit)
  pub tx_beginner : Option (Call S O T)
  pub begin_plain : Call S Unit T
  pub checker : Option (Call S NamedValue NamedValue)
  pub resetter : Option (Call S Unit Unit)
  pub validator : Option (S → Bool)

module _ {S O T : Type 0} where
  unfoldable pub ping : BaseSession S O T → S → S × Outcome {0} Unit
  ping conn s = choose conn.pinger (s, ok tt) λ call. call tt s

  unfoldable pub begin_tx : BaseSession S O T → O → S → S × Outcome T
  begin_tx conn opts s = choose conn.tx_beginner (conn.begin_plain tt s) λ call. call opts s

  unfoldable pub check_named_value : BaseSession S O T → NamedValue → S → S × Outcome NamedValue
  check_named_value conn value s = choose conn.checker (s, ok value) λ call. call value s

  unfoldable pub reset_session : BaseSession S O T → S → S × Outcome {0} Unit
  reset_session conn s = choose conn.resetter (s, ok tt) λ call. call tt s

  unfoldable pub is_valid : BaseSession S O T → S → Bool
  is_valid conn s = choose conn.validator true λ valid. valid s
