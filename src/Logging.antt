-- ===== src/Logging.antt =====
-- logging.go: the lines that the driver writes for statements that failed. The time stamp of an
-- entry is left out.
use unique_dialect.Base.{Bool, true, not, List, [], ◌∷◌, ◌++◌, Option, none, some, if◌then◌else◌}
use unique_dialect.Options.{LoggingOptions}
use unique_dialect.Outcome.{Failure}
use unique_dialect.Text.{Text, codes, is_empty}

pub record SqlFailureLogger : Type 0 where
  pub enabled : Bool
  pub translate_log_path : Text
  pub execution_log_path : Text

pub record SqlFailureLogEntry : Type 0 where
  pub kind : Text
  pub stage : Text
  pub input_sql : Text
  pub translated_sql : Text
  pub error : Failure

-- The lines of all log files, each with its path, the newest last.
abbrev pub Log : Type 0
Log = List (Text × SqlFailureLogEntry)

-- newSQLFailureLogger; `none` is nil.
unfoldable pub new_sql_failure_logger : LoggingOptions → Option SqlFailureLogger
new_sql_failure_logger opts =
    if not opts.log_failed_sql
    then none
    else some (record {
      enabled = true;
      translate_log_path = opts.translate_failure_log_path;
      execution_log_path = opts.execution_failure_log_path;
    })

-- `writable` tells whether the directory and the file of a path can be made and opened.
unfoldable pub write : (Text → Bool) → Text → SqlFailureLogEntry → Log → Log
write writable path entry log =
    if is_empty path then log else if writable path then log ++ (path, entry) ∷ [] else log

unfoldable pub translation_entry : Text → Text → Failure → SqlFailureLogEntry
unfolding codes
translation_entry stage sql e = record {
  kind = codes "translation_failure";
  stage = stage;
  input_sql = sql;
  translated_sql = [];
  error = e;
}

unfoldable pub execution_entry : Text → Text → Text → Failure → SqlFailureLogEntry
unfolding codes
execution_entry stage sql translated e = record {
  kind = codes "execution_failure";
  stage = stage;
  input_sql = sql;
  translated_sql = translated;
  error = e;
}

unfoldable pub log_translation_failure :
    (Text → Bool) → Option SqlFailureLogger → Text → Text → Failure → Log → Log
unfolding write translation_entry
log_translation_failure writable none stage sql e log = log
log_translation_failure writable (some l) stage sql e log =
    if not l.enabled
    then log
    else write writable l.translate_log_path (translation_entry stage sql e) log

unfoldable pub log_execution_failure :
    (Text → Bool) → Option SqlFailureLogger → Text → Text → Text → Failure → Log → Log
unfolding write execution_entry
log_execution_failure writable none stage sql translated e log = log
log_execution_failure writable (some l) stage sql translated e log =
    if not l.enabled
    then log
    else write writable l.execution_log_path (execution_entry stage sql translated e) log
