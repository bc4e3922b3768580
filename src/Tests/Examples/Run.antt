-- ===== src/Tests/Examples/Run.antt =====
-- The theorems on the translator at concrete inputs.
use unique_dialect.Base.{ℕ, ◌+◌, ◌*◌, ◌≤◌, List, [], ◌∷◌, ◌≡◌, refl, arith, length}
use unique_dialect.Dialect.{mysql, postgres}
use unique_dialect.Outcome.{Outcome, ok, err, invalid_assignment}
use unique_dialect.Text.{Text}
use unique_dialect.Translator.Memo.{
  IsSound, with_args, successes, answered, translate-refines, translate-again,
}
use unique_dialect.Translator.Threads.Safety.{AllAnswered, answers, begin_all, interleaved}
use unique_dialect.Translator.Threads.{
  Call, here, there, Steps, stay, more, remaining, advance, missed,
}
use unique_dialect.Translator.{TranslatorOptions, Translator, count_hit, translate}

-- A translation that fails on the empty text.
abbrev mark_text : TranslatorOptions → Text → Outcome Text
mark_text opts [] = err invalid_assignment
mark_text opts (c ∷ s) = ok (b'>' ∷ c ∷ s)

abbrev fresh : Translator
fresh = record {
  opts = record { input_dialect = mysql; target_dialect = postgres };
  cache = [];
  stats = record { hits = 0; misses = 0 };
}

abbrev text : Text
text = b'a' ∷ []

abbrev arguments : List ℕ
arguments = 7 ∷ []

translate-refines_example :
    ((translate mark_text fresh text arguments).1 ≡ with_args arguments (mark_text fresh.opts text))
    × ((translate mark_text fresh text arguments).0.opts ≡ fresh.opts)
    × IsSound mark_text
        (translate mark_text fresh text arguments).0.opts
        (translate mark_text fresh text arguments).0.cache
    × (answered (translate mark_text fresh text arguments).0
        ≡ answered fresh + successes (translate mark_text fresh text arguments).1)
translate-refines_example = translate-refines mark_text fresh text arguments tt

translate-again_example :
    translate
      (λ opts sql. err invalid_assignment)
      (translate mark_text fresh text arguments).0
      text
      arguments
    ≡ (
      count_hit (translate mark_text fresh text arguments).0,
      ok (record { sql = b'>' ∷ b'a' ∷ []; args = arguments }),
    )
unfolding translate
translate-again_example =
    translate-again mark_text fresh text arguments (λ opts sql. err invalid_assignment)
      (record { sql = b'>' ∷ b'a' ∷ []; args = arguments }) refl

-- Two calls for one text, of which the second reads the cache before the first has written it.
abbrev two_calls : List (Text × List ℕ)
two_calls = (text, []) ∷ (text, []) ∷ []

abbrev waiting : Call ℕ
waiting = record { sql = text; args = []; phase = missed }

abbrev both_waiting : List (Call ℕ)
both_waiting = waiting ∷ waiting ∷ []

both_read : Steps mark_text 2 fresh (begin_all two_calls) fresh both_waiting
unfolding advance
both_read = more (here (omega arith)) (more (there (here (omega arith))) stay)

interleaved_example :
    IsSound mark_text fresh.opts fresh.cache
    × AllAnswered mark_text fresh.opts both_waiting
    × (answered fresh ≡ answered fresh + answers both_waiting)
    × (2 + remaining both_waiting ≤ 3 * length two_calls)
interleaved_example = interleaved mark_text 2 fresh two_calls fresh both_waiting tt both_read
