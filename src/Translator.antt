-- ===== src/Translator.antt =====
-- translator.go: the cache in front of a translation, and the statistics. The cache is modelled for
-- any translation function, since Translate calls translateSQL for nothing but its result.
pub mod Memo
pub mod Threads
pub mod Sql
use unique_dialect.Base.{
  ℕ, ◌+◌, Bool, true, false, ◌||◌, List, [], ◌∷◌, ◌++◌, Option, none, some, if◌then◌else◌, choose,
}
use unique_dialect.Dialect.{Dialect, dialect_text, same_dialect, postgres}
use unique_dialect.Ir
use unique_dialect.Normalize.{normalize}
use unique_dialect.Outcome.{Outcome, ok, err, panic, ◌>>=◌, missing_dialect, parser_adaptation}
use unique_dialect.Parser.{ParsedStatement, should_block}
use unique_dialect.Render.{render}
use unique_dialect.Syntax
use unique_dialect.Syntax.Postgres
use unique_dialect.Text.{Text, codes, text_eq, is_empty}

pub record TranslatorOptions : Type 0 where
  pub input_dialect : Dialect
  pub target_dialect : Dialect

pub record TranslatorStats : Type 0 where
  pub hits : ℕ
  pub misses : ℕ

-- The cache maps keys to translated texts; the newest entry comes first.
pub record Translator : Type 0 where
  pub opts : TranslatorOptions
  pub cache : List (Text × Text)
  pub stats : TranslatorStats

pub record Translation (A : Type 0) : Type 0 where
  pub sql : Text
  pub args : List A

unfoldable pub new_translator : TranslatorOptions → Outcome Translator
unfolding dialect_text
new_translator opts =
    if is_empty (dialect_text opts.input_dialect)
    then err missing_dialect
    else if is_empty (dialect_text opts.target_dialect)
    then err missing_dialect
    else ok (record { opts = opts; cache = []; stats = record { hits = 0; misses = 0 } })

-- The key of a text in the cache.
unfoldable pub cache_key : TranslatorOptions → Text → Text
unfolding dialect_text codes
cache_key opts sql =
    (dialect_text opts.input_dialect
      ++ (codes "->" ++ (dialect_text opts.target_dialect ++ codes ":")))
    ++ sql

unfoldable pub lookup : Text → List (Text × Text) → Option Text
unfolding text_eq
lookup k [] = none
lookup k ((j, v) ∷ rest) = if text_eq j k then some v else lookup k rest

-- `t.stats.Hits++`, and the write of a new entry.
unfoldable pub count_hit : Translator → Translator
count_hit t = record t { stats = record { hits = t.stats.hits + 1; misses = t.stats.misses } }

unfoldable pub store : Text → Text → Translator → Translator
unfolding cache_key
store sql translated t = record t {
  cache = (cache_key t.opts sql, translated) ∷ t.cache;
  stats = record { hits = t.stats.hits; misses = t.stats.misses + 1 };
}

-- The end of Translate after a miss.
unfoldable pub finish_miss :
    {A : Type 0} → Translator → Text → List A → Outcome Text → Translator × Outcome (Translation A)
unfolding store
finish_miss t sql args (ok translated) =
    (store sql translated t, ok (record { sql = translated; args = args }))
finish_miss t sql args (err e) = (t, err e)
finish_miss t sql args panic = (t, panic)

unfoldable pub translate :
    {A : Type 0}
    → (TranslatorOptions → Text → Outcome Text)
    → Translator
    → Text
    → List A
    → Translator × Outcome (Translation A)
unfolding lookup cache_key count_hit finish_miss
translate translate_sql t sql args =
    choose (lookup (cache_key t.opts sql) t.cache)
      (finish_miss t sql args (translate_sql t.opts sql))
      λ cached. (count_hit t, ok (record { sql = cached; args = args }))
