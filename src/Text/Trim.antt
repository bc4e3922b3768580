-- ===== src/Text/Trim.antt =====
-- Laws of strings.Trim and strings.TrimSpace: what they leave alone, and what they take off.
use unique_dialect.Base.{
  ℕ, Bool, true, false, [], ◌∷◌, ◌++◌, ◌≡◌, refl, ap, ◌∙◌, arith, Bool-cases, inl, inr,
}
use unique_dialect.Text.{Text, trim_left, keep_right, trim_right, trim_by}

module _ (p : ℕ → Bool) where
  -- The first byte, if there is one, is not in the cut set.
  abbrev pub HeadKept : Text → Type 0
  HeadKept [] = Unit
  HeadKept (c ∷ s) = p c ≡ false

  pub trim_left-HeadKept : (s : Text) → HeadKept (trim_left p s)
  unfolding trim_left
  trim_left-HeadKept [] = tt
  trim_left-HeadKept (c ∷ s) = elim (Bool-cases (p c)) [
    | inl cut ↦ rw cut (trim_left-HeadKept s)
    | inr kept ↦ rw kept kept
  ]

  pub trim_left_keep : (s : Text) → HeadKept s → trim_left p s ≡ s
  unfolding trim_left
  trim_left_keep [] h = refl
  trim_left_keep (c ∷ s) h = rw h

  pub trim_right_keep : (c : ℕ) (s : Text) → p c ≡ false → trim_right p (c ∷ s) ≡ c ∷ trim_right p s
  unfolding trim_right
  trim_right_keep c s h = keep (trim_right p s)
    where
      keep : (r : Text) → keep_right p c r ≡ c ∷ r
      keep [] = rw h
      keep (d ∷ r) = refl

  trim_right-HeadKept : (s : Text) → HeadKept s → HeadKept (trim_right p s)
  trim_right-HeadKept [] h = unfold trim_right in tt
  trim_right-HeadKept (c ∷ s) h = rw (trim_right_keep c s h) h

  trim_right-trim_right : (s : Text) → trim_right p (trim_right p s) ≡ trim_right p s
  unfolding trim_right
  trim_right-trim_right [] = refl
  trim_right-trim_right (c ∷ s) = again (trim_right p s) (trim_right-trim_right s)
    where
      again : (r : Text) → trim_right p r ≡ r → trim_right p (keep_right p c r) ≡ keep_right p c r
      again [] h = ground arith
      again (d ∷ r) h = rw h

  pub trim_by-HeadKept : (s : Text) → HeadKept (trim_by p s)
  unfolding trim_by
  trim_by-HeadKept s = trim_right-HeadKept (trim_left p s) (trim_left-HeadKept s)

  -- Trimming twice is trimming once.
  pub trim_by-trim_by : (s : Text) → trim_by p (trim_by p s) ≡ trim_by p s
  trim_by-trim_by s =
      unfold trim_by in
      ap (trim_right p) (trim_left_keep (trim_by p s) (trim_by-HeadKept s))
      ∙ trim_right-trim_right (trim_left p s)

  trim_right-concat : (s : Text) (q : ℕ) → p q ≡ true → trim_right p (s ++ q ∷ []) ≡ trim_right p s
  unfolding trim_right
  trim_right-concat [] q h = rw h
  trim_right-concat (c ∷ s) q h = rw (trim_right-concat s q h)

  trim_right-concat_keep :
      (s : Text) (q : ℕ) → p q ≡ false → trim_right p (s ++ q ∷ []) ≡ s ++ q ∷ []
  unfolding trim_right
  trim_right-concat_keep [] q h = rw h
  trim_right-concat_keep (c ∷ s) q h = rw (trim_right-concat_keep s q h) (cons s)
    where
      cons : (s : Text) → keep_right p c (s ++ q ∷ []) ≡ c ∷ s ++ q ∷ []
      cons [] = refl
      cons (d ∷ r) = refl

  trim_left-concat :
      (s : Text) (q : ℕ)
      → HeadKept s
      → p q ≡ true
      → trim_right p (trim_left p (s ++ q ∷ [])) ≡ trim_right p s
  trim_left-concat [] q h t = unfold trim_left trim_right in rw t
  trim_left-concat (c ∷ s) q h t =
      ap (trim_right p) (trim_left_keep (c ∷ s ++ q ∷ []) h) ∙ trim_right-concat (c ∷ s) q t

  -- A trimmed text is got back from between two bytes of the cut set.
  pub trim_by-wrapped :
      (s : Text) (q : ℕ) → p q ≡ true → trim_by p (q ∷ trim_by p s ++ q ∷ []) ≡ trim_by p s
  trim_by-wrapped s q t =
      unfold trim_by in
      unfold trim_left in
      rw t (
        trim_left-concat (trim_by p s) q (trim_by-HeadKept s) t
        ∙ trim_right-trim_right (trim_left p s))

  -- A text between two bytes outside the cut set is left as it is.
  pub trim_by-keep :
      (s : Text) (q : ℕ) → p q ≡ false → trim_by p (q ∷ s ++ q ∷ []) ≡ q ∷ s ++ q ∷ []
  trim_by-keep s q h =
      unfold trim_by in
      ap (trim_right p) (trim_left_keep (q ∷ s ++ q ∷ []) h) ∙ trim_right-concat_keep (q ∷ s) q h
