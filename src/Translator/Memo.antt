-- ===== src/Translator/Memo.antt =====
-- Translate against the translation function that it caches.
use unique_dialect.Base.{
  ℕ, ◌+◌, true, false, List, [], ◌∷◌, ◌++◌, Option, none, some, ◌≡◌, refl, sym, ap, ◌∙◌, arith,
  Bool-cases, inl, inr, choose,
}
use unique_dialect.Outcome.{Outcome, ok, err, panic, ◌>>=◌}
use unique_dialect.Text.{Text, text_eq}
use unique_dialect.Translator.{
  TranslatorOptions, Translator, Translation, cache_key, lookup, count_hit, store, finish_miss,
  translate,
}

pub text_eq-eq : (s t : Text) → text_eq s t ≡ true → s ≡ t
unfolding text_eq
text_eq-eq [] [] h = refl
text_eq-eq [] (b ∷ t) h = cc
text_eq-eq (a ∷ s) [] h = cc
text_eq-eq (a ∷ s) (b ∷ t) h = ground (arith, text_eq-eq s t)

pub text_eq_refl : (s : Text) → text_eq s s ≡ true
unfolding text_eq
text_eq_refl [] = refl
text_eq_refl (a ∷ s) = ground (arith, text_eq_refl s)

append-left_cancel : (p s t : Text) → p ++ s ≡ p ++ t → s ≡ t
append-left_cancel [] s t e = e
append-left_cancel (c ∷ p) s t e = append-left_cancel p s t (cc)

-- Two texts with one key are one text.
pub cache_key-injective :
    (opts : TranslatorOptions) (s t : Text) → cache_key opts s ≡ cache_key opts t → s ≡ t
unfolding cache_key
cache_key-injective opts s t e = append-left_cancel _ s t e

hit_value :
    (key v w : Text) (rest : List (Text × Text)) (k : Text)
    → text_eq k key ≡ true
    → lookup key ((k, v) ∷ rest) ≡ some w
    → v ≡ w
unfolding lookup
hit_value key v w rest k hit e = ground arith

miss_value :
    (key v : Text) (o : Option Text) (rest : List (Text × Text)) (k : Text)
    → text_eq k key ≡ false
    → lookup key ((k, v) ∷ rest) ≡ o
    → lookup key rest ≡ o
unfolding lookup
miss_value key v o rest k miss e = ground arith

module _ (f : TranslatorOptions → Text → Outcome Text) where
  -- Each entry is the translation of the text that its key stands for.
  abbrev pub IsSound : TranslatorOptions → List (Text × Text) → Type 0
  IsSound opts [] = Unit
  IsSound opts ((k, v) ∷ rest) =
      ((sql : Text) × (k ≡ cache_key opts sql) × (f opts sql ≡ ok v)) × IsSound opts rest

  pub lookup-IsSound :
      (opts : TranslatorOptions) (cache : List (Text × Text)) (sql v : Text)
      → IsSound opts cache
      → lookup (cache_key opts sql) cache ≡ some v
      → f opts sql ≡ ok v
  lookup-IsSound opts [] sql v s e = unfold lookup in cc
  lookup-IsSound opts ((k, w) ∷ rest) sql v ((sql', key, is), s) e =
      elim (Bool-cases (text_eq k (cache_key opts sql))) [
        | inl hit ↦
            let same = cache_key-injective opts sql' sql (sym key ∙ text_eq-eq k _ hit) in
            let found = hit_value _ w v rest k hit e in rw (sym same, sym found) is
        | inr miss ↦ lookup-IsSound opts rest sql v s (miss_value _ w _ rest k miss e)
      ]

-- The result of Translate without a cache.
abbrev pub with_args : {A : Type 0} → List A → Outcome Text → Outcome (Translation A)
with_args args o = do translated ← o; ok (record { sql = translated; args = args })

-- Calls that succeed.
abbrev pub successes : {A : Type 0} → Outcome A → ℕ
successes (ok a) = 1
successes (err e) = 0
successes panic = 0

abbrev pub answered : Translator → ℕ
answered t = t.stats.hits + t.stats.misses

module _ {A : Type 0} (f : TranslatorOptions → Text → Outcome Text) where
  abbrev Agrees : Translator → Text → List A → Translator × Outcome (Translation A) → Type 0
  Agrees t sql args (t', o) =
      (o ≡ with_args args (f t.opts sql))
      × (t'.opts ≡ t.opts)
      × IsSound f t'.opts t'.cache
      × (answered t' ≡ answered t + successes o)

  finish_miss-Agrees :
      (t : Translator) (sql : Text) (args : List A) (o : Outcome Text)
      → f t.opts sql ≡ o
      → IsSound f t.opts t.cache
      → Agrees t sql args (finish_miss t sql args o)
  unfolding finish_miss store
  finish_miss-Agrees t sql args (ok v) e s =
      (ap (with_args args) (sym e), refl, ((sql, refl, e), s), omega arith)
  finish_miss-Agrees t sql args (err x) e s = (ap (with_args args) (sym e), refl, s, omega arith)
  finish_miss-Agrees t sql args panic e s = (ap (with_args args) (sym e), refl, s, omega arith)

  chosen-Agrees :
      (t : Translator) (sql : Text) (args : List A) (o : Option Text)
      → lookup (cache_key t.opts sql) t.cache ≡ o
      → IsSound f t.opts t.cache
      → Agrees t sql args (
          choose o
            (finish_miss t sql args (f t.opts sql))
            λ cached. (count_hit t, ok (record { sql = cached; args = args })))
  unfolding count_hit
  chosen-Agrees t sql args none e s = finish_miss-Agrees t sql args _ refl s
  chosen-Agrees t sql args (some v) e s =
      (ap (with_args args) (sym (lookup-IsSound f t.opts t.cache sql v s e)), refl, s, omega arith)

  -- With a cache whose entries are translations of their texts, Translate returns what the translation
  -- of the text returns, errors and panics included, with the arguments it was given; it keeps the options and that property of the
  -- cache, and hits and misses together grow by one if it succeeds and by nothing otherwise.
  pub translate-refines :
      (t : Translator) (sql : Text) (args : List A)
      → IsSound f t.opts t.cache
      → Agrees t sql args (translate f t sql args)
  unfolding translate
  translate-refines t sql args s = chosen-Agrees t sql args _ refl s

  -- The cache answers for the text with a result's translation, and the result has the arguments.
  abbrev Found : Text → List A → Translator × Outcome (Translation A) → Type 0
  Found sql args (t', ok r) =
      (lookup (cache_key t'.opts sql) t'.cache ≡ some r.sql) × (r.args ≡ args)
  Found sql args (t', err e) = Unit
  Found sql args (t', panic) = Unit

  finish_miss-Found :
      (t : Translator) (sql : Text) (args : List A) (o : Outcome Text)
      → Found sql args (finish_miss t sql args o)
  unfolding finish_miss store lookup
  finish_miss-Found t sql args (ok v) = (rw (text_eq_refl (cache_key t.opts sql)) refl, refl)
  finish_miss-Found t sql args (err x) = tt
  finish_miss-Found t sql args panic = tt

  chosen-Found :
      (t : Translator) (sql : Text) (args : List A) (o : Option Text)
      → lookup (cache_key t.opts sql) t.cache ≡ o
      → Found sql args (
          choose o
            (finish_miss t sql args (f t.opts sql))
            λ cached. (count_hit t, ok (record { sql = cached; args = args })))
  unfolding count_hit
  chosen-Found t sql args none e = finish_miss-Found t sql args _
  chosen-Found t sql args (some v) e = (e, refl)

  Found-again :
      (g : TranslatorOptions → Text → Outcome Text) (sql : Text) (args : List A) (t' : Translator)
      (o : Outcome (Translation A)) (r : Translation A)
      → Found sql args (t', o)
      → o ≡ ok r
      → translate g t' sql args ≡ (count_hit t', ok r)
  unfolding translate
  Found-again g sql args t' (ok q) r (found, same) e = rw found (
      ap (λ x. (count_hit t', ok x)) (ap (λ x. record { sql = q.sql; args = x }) (sym same))
      ∙ ap (λ o. (count_hit t', o)) e)
  Found-again g sql args t' (err x) r found e = cc
  Found-again g sql args t' panic r found e = cc

  -- A text that Translate has translated is found the next time, whatever the translation function
  -- is by then: the result is the same one, and nothing but the number of hits changes.
  pub translate-again :
      (t : Translator) (sql : Text) (args : List A) (g : TranslatorOptions → Text → Outcome Text)
      (r : Translation A)
      → (translate f t sql args).1 ≡ ok r
      → translate g (translate f t sql args).0 sql args
        ≡ (count_hit (translate f t sql args).0, ok r)
  translate-again t sql args g r e = Found-again g sql args _ _ r (translate-Found t sql args) e
    where
      translate-Found :
          (t : Translator) (sql : Text) (args : List A) → Found sql args (translate f t sql args)
      translate-Found t sql args = unfold translate in chosen-Found t sql args _ refl
