-- ===== src/Render/Dml/Limit/Numerals.antt =====
-- Decimal numbers pass the trimming and the list splitter unchanged.
use unique_dialect.Base.{
  ℕ, ◌+◌, ◌≤◌, ◌<◌, false, [], ◌∷◌, ◌++◌, ◌≡◌, refl, sym, ap, ◌∙◌, arith, length, length-append,
  All, append-nil, append_assoc, ◌==◌,
}
use unique_dialect.Syntax.Scan.{initial, step, split_csv_from}
use unique_dialect.Text.Decimal.Digits.{format_nat-IsDigit, format_nat-length}
use unique_dialect.Text.Decimal.{ℤ, pos, negsuc, itoa, format_nat}
use unique_dialect.Text.Trim.{HeadKept, trim_left_keep, trim_right_keep}
use unique_dialect.Text.{Text, is_space, keep_right, trim_right, trim_by, trim_space}

-- The bytes from `-` to `9`, which neither the trimming nor the scanner takes notice of.
abbrev pub IsNumeral : ℕ → Type 0
IsNumeral c = (45 ≤ c) × (c ≤ 57)

digits-IsNumeral : (s : Text) → All (λ c. (b'0' ≤ c) × (c ≤ b'9')) s → All IsNumeral s
digits-IsNumeral [] h = tt
digits-IsNumeral (c ∷ s) ((l, u), h) = ((omega arith, omega arith), digits-IsNumeral s h)

pub itoa-IsNumeral : (z : ℤ) → All IsNumeral (itoa z)
unfolding itoa
itoa-IsNumeral (pos n) = digits-IsNumeral (format_nat n) (format_nat-IsDigit n)
itoa-IsNumeral (negsuc n) =
    ((omega arith, omega arith), digits-IsNumeral (format_nat (n + 1)) (format_nat-IsDigit (n + 1)))

pub itoa-length : (z : ℤ) → 0 < length (itoa z)
unfolding itoa
itoa-length (pos n) = format_nat-length n
itoa-length (negsuc n) = omega arith

pub numeral-kept : (c : ℕ) → IsNumeral c → is_space c ≡ false
unfolding is_space
numeral-kept c (l, u) = ground arith

trim_right-numeral : (s : Text) → All IsNumeral s → trim_right is_space s ≡ s
trim_right-numeral [] h = unfold trim_right in refl
trim_right-numeral (c ∷ s) (k, h) =
    trim_right_keep is_space c s (numeral-kept c k) ∙ ap (◌∷◌ c) (trim_right-numeral s h)

numeral-HeadKept : (s : Text) → All IsNumeral s → HeadKept is_space s
numeral-HeadKept [] h = tt
numeral-HeadKept (c ∷ s) (k, h) = numeral-kept c k

pub trim_space-numeral : (s : Text) → All IsNumeral s → trim_space s ≡ s
trim_space-numeral s h =
    unfold trim_space in
    unfold trim_by in
    ap (trim_right is_space) (trim_left_keep is_space s (numeral-HeadKept s h))
    ∙ trim_right-numeral s h

-- What stands before a text that is kept from the right is kept.
trim_right-append :
    (s t : Text) → 0 < length t → trim_right is_space t ≡ t → trim_right is_space (s ++ t) ≡ s ++ t
unfolding trim_right
trim_right-append [] t h e = e
trim_right-append (c ∷ s) t h e = rw (trim_right-append s t h e) (kept (s ++ t) (longer s))
  where
    kept : (r : Text) → 0 < length r → keep_right is_space c r ≡ c ∷ r
    kept [] h = absurd (omega arith)
    kept (d ∷ r) h = refl

    longer : (s : Text) → 0 < length (s ++ t)
    longer [] = h
    longer (d ∷ s) = omega arith

-- A text between two numerals is trimmed to itself.
pub trim_space-between :
    (a mid b : Text)
    → All IsNumeral a
    → 0 < length a
    → All IsNumeral b
    → 0 < length b
    → trim_space (a ++ (mid ++ b)) ≡ a ++ (mid ++ b)
unfolding trim_space trim_by
trim_space-between [] mid b ha la hb lb = absurd (omega arith)
trim_space-between (c ∷ a) mid b (k, ha) la hb lb =
    ap (trim_right is_space) (trim_left_keep is_space (c ∷ a ++ (mid ++ b)) (numeral-kept c k))
    ∙ trim_right-append (c ∷ a) (mid ++ b) (omega (arith, length-append mid b))
        (trim_right-append mid b lb (trim_right-numeral b hb))

numeral-step : (c : ℕ) → IsNumeral c → (step c initial ≡ initial) × ((c == b',') ≡ false)
unfolding step
numeral-step c (l, u) = (ground arith, ground arith)

-- The list splitter behind a part, and at the end.
pub split_csv-numeral :
    (cur s rest : Text)
    → All IsNumeral s
    → split_csv_from initial cur (s ++ b',' ∷ rest)
      ≡ trim_space (cur ++ s) ∷ split_csv_from initial [] rest
unfolding split_csv_from
split_csv-numeral cur [] rest h =
    ap (λ x. trim_space x ∷ split_csv_from initial [] rest) (sym (append-nil cur))
split_csv-numeral cur (c ∷ s) rest (k, h) =
    let (same, other_byte) = numeral-step c k in
    rw (other_byte, same)
      (split_csv-numeral (cur ++ c ∷ []) s rest h
        ∙ ap (λ x. trim_space x ∷ split_csv_from initial [] rest) (append_assoc cur (c ∷ []) s))

pub split_csv-last :
    (cur s : Text) → All IsNumeral s → split_csv_from initial cur s ≡ trim_space (cur ++ s) ∷ []
unfolding split_csv_from
split_csv-last cur [] h = ap (λ x. trim_space x ∷ []) (sym (append-nil cur))
split_csv-last cur (c ∷ s) (k, h) =
    let (same, other_byte) = numeral-step c k in
    rw (other_byte, same)
      (split_csv-last (cur ++ c ∷ []) s h
        ∙ ap (λ x. trim_space x ∷ []) (append_assoc cur (c ∷ []) s))
