-- ===== src/Syntax/Scan/Csv.antt =====
-- splitTopLevelCSV as the inverse of joining by commas.
use mathlib.Core.List.{cons-ne-nil}
use unique_dialect.Base.{
  ℕ, Bool, true, false, ◌&&◌, ◌||◌, List, [], ◌∷◌, ◌++◌, ◌≡◌, ◌≢◌, refl, sym, ap, ◌∙◌, arith, ◌==◌,
  if◌then◌else◌, Bool-cases, inl, inr, map, append_assoc, append-nil,
}
use unique_dialect.Syntax.Scan.{
  Scan, initial, at_top, step, run, split_csv_from, split_top_level_csv,
}
use unique_dialect.Text.{Text, trim_space, join, join_after}

abbrev pub comma : ℕ
comma = b','

-- A comma outside every quote and parenthesis of a text that is scanned from `s` on.
unfoldable pub has_comma : Scan → Text → Bool
has_comma s [] = false
has_comma s (c ∷ rest) = (c == comma && at_top s) || has_comma (step c s) rest

-- Each part has no such comma, and each but the last is balanced.
abbrev pub IsParts : List Text → Type 0
IsParts [] = ⊥
IsParts (p ∷ []) = has_comma initial p ≡ false
IsParts (p ∷ q ∷ ps) =
    (has_comma initial p ≡ false) × (at_top (run initial p) ≡ true) × IsParts (q ∷ ps)

at_top-initial : (s : Scan) → at_top s ≡ true → s ≡ initial
at_top-initial s h = ground arith

||-eq-false : (a b : Bool) → (a || b) ≡ false → (a ≡ false) × (b ≡ false)
||-eq-false a b h = ground arith

split_csv_from-other :
    (s : Scan) (cur : Text) (c : ℕ) (rest : Text)
    → (c == comma && at_top s) ≡ false
    → split_csv_from s cur (c ∷ rest) ≡ split_csv_from (step c s) (cur ++ c ∷ []) rest
split_csv_from-other s cur c rest h = unfold split_csv_from in rw h

has_comma-cons :
    (s : Scan) (c : ℕ) (p : Text)
    → has_comma s (c ∷ p) ≡ false
    → ((c == comma && at_top s) ≡ false) × (has_comma (step c s) p ≡ false)
has_comma-cons s c p h =
    unfold has_comma in ||-eq-false (c == comma && at_top s) (has_comma (step c s) p) h

-- The loop passes over a part with no separating comma.
split_csv_from-part :
    (s : Scan) (cur p rest : Text)
    → has_comma s p ≡ false
    → split_csv_from s cur (p ++ rest) ≡ split_csv_from (run s p) (cur ++ p) rest
split_csv_from-part s cur [] rest h = rw (append-nil cur)
split_csv_from-part s cur (c ∷ p) rest h =
    let (none_here, none_later) = has_comma-cons s c p h in
    split_csv_from-other s cur c (p ++ rest) none_here
    ∙ split_csv_from-part (step c s) (cur ++ c ∷ []) p rest none_later
    ∙ rw (append_assoc cur (c ∷ []) p)

-- A comma at the top level ends the part.
split_csv_from-comma :
    (s : Scan) (cur rest : Text)
    → at_top s ≡ true
    → split_csv_from s cur (comma ∷ rest) ≡ trim_space cur ∷ split_csv_from initial [] rest
split_csv_from-comma s cur rest h = rw (at_top-initial s h) (unfold split_csv_from in refl)

split_csv_from-join :
    (p : Text) (ps : List Text)
    → IsParts (p ∷ ps)
    → split_csv_from initial [] (join_after (comma ∷ []) p ps) ≡ map trim_space (p ∷ ps)
unfolding join_after
split_csv_from-join p [] h =
    ap (split_csv_from initial []) (sym (append-nil p))
    ∙ split_csv_from-part initial [] p [] h
    ∙ unfold split_csv_from in refl
split_csv_from-join p (q ∷ ps) (no_comma, top, h) =
    split_csv_from-part initial [] p _ no_comma
    ∙ split_csv_from-comma (run initial p) p _ top
    ∙ ap (◌∷◌ (trim_space p)) (split_csv_from-join q ps h)

-- Splitting parts that were joined by commas gives the parts back, trimmed, if there is at least one
-- of them, none has a comma outside quotes and parentheses, and each but the last is balanced.
pub split_top_level_csv-join :
    (ps : List Text) → IsParts ps → split_top_level_csv (join (comma ∷ []) ps) ≡ map trim_space ps
split_top_level_csv-join [] h = absurd h
split_top_level_csv-join (p ∷ ps) h = unfold split_top_level_csv join in split_csv_from-join p ps h

-- The parts before they are trimmed.
raw_parts : Scan → Text → Text → List Text
raw_parts s cur [] = cur ∷ []
raw_parts s cur (c ∷ rest) =
    let part = cur ∷ raw_parts s [] rest in
    let more = raw_parts (step c s) (cur ++ c ∷ []) rest in
    if c == comma && at_top s then part else more

split_csv_from-raw_parts :
    (s : Scan) (cur t : Text) → split_csv_from s cur t ≡ map trim_space (raw_parts s cur t)
unfolding split_csv_from raw_parts
split_csv_from-raw_parts s cur [] = refl
split_csv_from-raw_parts s cur (c ∷ rest) = elim (Bool-cases (c == comma && at_top s)) [
  | inl e ↦ rw e (ap (◌∷◌ (trim_space cur)) (split_csv_from-raw_parts s [] rest))
  | inr e ↦ rw e (split_csv_from-raw_parts (step c s) (cur ++ c ∷ []) rest)
]

join-cons :
    (p : Text) (ps : List Text)
    → ps ≢ []
    → join (comma ∷ []) (p ∷ ps) ≡ p ++ comma ∷ join (comma ∷ []) ps
unfolding join join_after
join-cons p [] ne = absurd (ne refl)
join-cons p (q ∷ ps) ne = refl

raw_parts-ne-nil : (s : Scan) (cur t : Text) → raw_parts s cur t ≢ []
unfolding raw_parts
raw_parts-ne-nil s cur [] = cons-ne-nil cur []
raw_parts-ne-nil s cur (c ∷ rest) = elim (Bool-cases (c == comma && at_top s)) [
  | inl e ↦ rw e (cons-ne-nil cur (raw_parts s [] rest))
  | inr e ↦ rw e (raw_parts-ne-nil (step c s) (cur ++ c ∷ []) rest)
]

join-raw_parts : (s : Scan) (cur t : Text) → join (comma ∷ []) (raw_parts s cur t) ≡ cur ++ t
unfolding raw_parts
join-raw_parts s cur [] = unfold join join_after in sym (append-nil cur)
join-raw_parts s cur (c ∷ rest) = elim (Bool-cases (c == comma && at_top s)) [
  | inl e ↦ rw e (
      join-cons cur (raw_parts s [] rest) (raw_parts-ne-nil s [] rest)
      ∙ ground (arith, join-raw_parts s [] rest))
  | inr e ↦ rw e (join-raw_parts (step c s) (cur ++ c ∷ []) rest ∙ append_assoc cur (c ∷ []) rest)
]

run-concat : (s : Scan) (p : Text) (c : ℕ) → run s (p ++ c ∷ []) ≡ step c (run s p)
run-concat s [] c = refl
run-concat s (d ∷ p) c = run-concat (step d s) p c

has_comma-concat :
    (s : Scan) (p : Text) (c : ℕ)
    → has_comma s p ≡ false
    → (c == comma && at_top (run s p)) ≡ false
    → has_comma s (p ++ c ∷ []) ≡ false
unfolding has_comma
has_comma-concat s [] c h e = rw e
has_comma-concat s (d ∷ p) c h e = ground (arith, has_comma-concat (step d s) p c)

IsParts-cons :
    (p : Text) (ps : List Text)
    → has_comma initial p ≡ false
    → at_top (run initial p) ≡ true
    → IsParts ps
    → IsParts (p ∷ ps)
IsParts-cons p [] a b h = absurd h
IsParts-cons p (q ∷ ps) a b h = (a, b, h)

raw_parts-IsParts :
    (s : Scan) (cur t : Text)
    → run initial cur ≡ s
    → has_comma initial cur ≡ false
    → IsParts (raw_parts s cur t)
unfolding raw_parts
raw_parts-IsParts s cur [] r h = h
raw_parts-IsParts s cur (c ∷ rest) r h = elim (Bool-cases (c == comma && at_top s)) [
  | inl e ↦ rw e (
      IsParts-cons cur (raw_parts s [] rest) h (ground arith) (
        raw_parts-IsParts s [] rest (sym (at_top-initial s (ground arith)))
          (unfold has_comma in refl)))
  | inr e ↦ rw e (
      raw_parts-IsParts (step c s) (cur ++ c ∷ []) rest (run-concat initial cur c ∙ ap (step c) r)
        (has_comma-concat initial cur c h (rw r e)))
]

-- Splitting cuts the input at its commas outside every quote and parenthesis, and nowhere else:
-- the parts come from texts that give the input back when they are joined by commas, each with
-- no such comma inside and each but the last balanced; they are those texts, trimmed.
pub split_top_level_csv-IsParts :
    (input : Text)
    → (ps : List Text) × (split_top_level_csv input ≡ map trim_space ps)
      × (join (comma ∷ []) ps ≡ input)
      × IsParts ps
split_top_level_csv-IsParts input = (
  raw_parts initial [] input,
  unfold split_top_level_csv in split_csv_from-raw_parts initial [] input,
  join-raw_parts initial [] input,
  raw_parts-IsParts initial [] input refl (unfold has_comma in refl),
)
