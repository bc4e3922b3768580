-- ===== src/Translator/Threads.antt =====
-- Translate called by several goroutines on one Translator: each step of a call is one locked section of it,
-- or the translation between them, and the steps of the calls interleave in any order.
pub mod Safety
use unique_dialect.Base.{
  ℕ, zero, suc, ◌+◌, ◌≤◌, ◌<◌, Bool, true, false, List, [], ◌∷◌, Option, none, some, ◌≡◌, refl, sym,
  ap, ◌∙◌, arith, choose, All, length, ◌*◌,
}
use native.Mathlib.Decide.{dec_lt}
use unique_dialect.Outcome.{Outcome, ok, err, panic}
use unique_dialect.Text.{Text}
use unique_dialect.Translator.{
  TranslatorOptions, Translator, Translation, cache_key, lookup, count_hit, store,
}
use unique_dialect.Translator.Memo.{IsSound, lookup-IsSound, with_args, successes, answered}

-- Where a call is: before its read of the cache, after a hit, after a miss, before its write to the
-- cache, or back at its caller.
pub data Phase (A : Type 0) : Type 0 where
  started : Phase A
  hit : Text → Phase A
  missed : Phase A
  translated : Text → Phase A
  finished : Outcome (Translation A) → Phase A

pub record Call (A : Type 0) : Type 0 where
  pub sql : Text
  pub args : List A
  pub phase : Phase A

abbrev pub at : {A : Type 0} → Call A → Phase A → Call A
at c p = record { sql = c.sql; args = c.args; phase = p }

abbrev pub begin : {A : Type 0} → Text → List A → Call A
begin sql args = record { sql = sql; args = args; phase = started }

module _ {A : Type 0} where
  abbrev pub after_translation : Outcome Text → Phase A
  after_translation (ok v) = translated v
  after_translation (err e) = finished (err e)
  after_translation panic = finished panic

  -- The steps that a phase is from its end at most.
  abbrev pub distance : Phase A → ℕ
  distance started = 3
  distance (hit v) = 1
  distance missed = 2
  distance (translated v) = 1
  distance (finished o) = 0

  abbrev pub remaining : List (Call A) → ℕ
  remaining [] = 0
  remaining (c ∷ cs) = distance c.phase + remaining cs

module _ {A : Type 0} (f : TranslatorOptions → Text → Outcome Text) where
  -- The next step of a call.
  unfoldable pub advance : Translator → Call A → Phase A → Translator × Call A
  unfolding lookup cache_key count_hit store
  advance t c started =
      (t, at c (choose (lookup (cache_key t.opts c.sql) t.cache) missed λ v. hit v))
  advance t c (hit v) = (count_hit t, at c (finished (ok (record { sql = v; args = c.args }))))
  advance t c missed = (t, at c (after_translation (f t.opts c.sql)))
  advance t c (translated v) =
      (store c.sql v t, at c (finished (ok (record { sql = v; args = c.args }))))
  advance t c (finished o) = (t, c)

  -- One of the calls that has not finished takes its next step.
  pub data Step : Translator → List (Call A) → Translator → List (Call A) → Type 0 where
    here :
        {t : Translator} {c : Call A} {cs : List (Call A)}
        → 0 < distance c.phase
        → Step t (c ∷ cs) (advance t c c.phase).0 ((advance t c c.phase).1 ∷ cs)
    there :
        {t t' : Translator} {c : Call A} {cs cs' : List (Call A)}
        → Step t cs t' cs'
        → Step t (c ∷ cs) t' (c ∷ cs')

  pub data Steps : ℕ → Translator → List (Call A) → Translator → List (Call A) → Type 0 where
    stay : {t : Translator} {cs : List (Call A)} → Steps zero t cs t cs
    more :
        {n : ℕ} {t t' t'' : Translator} {cs cs' cs'' : List (Call A)}
        → Step t cs t' cs'
        → Steps n t' cs' t'' cs''
        → Steps (suc n) t cs t'' cs''
