-- ===== src/Text/Parts.antt =====
-- Laws of strings.Split and strings.Join.
use unique_dialect.Base.{
  ℕ, List, [], ◌∷◌, ◌++◌, ◌≡◌, ◌≢◌, refl, ap, ◌∙◌, arith, Bool-cases, inl, inr, All, ◌==◌, ==_iff,
}
use unique_dialect.Text.{Text, split, join, join_after, onto_first}

abbrev pub Lacks : ℕ → Text → Type 0
Lacks b = All (λ c. c ≢ b)

module _ (sep : ℕ) where
  split_part : (p rest : Text) → Lacks sep p → split sep (p ++ sep ∷ rest) ≡ p ∷ split sep rest
  unfolding split
  split_part [] rest h = ground arith
  split_part (c ∷ p) rest (ne, h) = ground (arith, split_part p rest h)

  split_last : (p : Text) → Lacks sep p → split sep p ≡ p ∷ []
  unfolding split
  split_last [] h = refl
  split_last (c ∷ p) (ne, h) = ground (arith, split_last p h)

  split-join_after :
      (p : Text) (ps : List Text)
      → All (Lacks sep) (p ∷ ps)
      → split sep (join_after (sep ∷ []) p ps) ≡ p ∷ ps
  unfolding join_after
  split-join_after p [] (h, _) = split_last p h
  split-join_after p (q ∷ ps) (h, hs) =
      split_part p (join_after (sep ∷ []) q ps) h ∙ ap (◌∷◌ p) (split-join_after q ps hs)

  pub split-join :
      (ps : List Text) → ps ≢ [] → All (Lacks sep) ps → split sep (join (sep ∷ []) ps) ≡ ps
  unfolding join
  split-join [] ne h = absurd (ne refl)
  split-join (p ∷ ps) ne h = split-join_after p ps h

  onto_first-Lacks :
      (c : ℕ) (ps : List Text) → c ≢ sep → All (Lacks sep) ps → All (Lacks sep) (onto_first c ps)
  onto_first-Lacks c [] ne h = ((ne, tt), tt)
  onto_first-Lacks c (p ∷ ps) ne (hp, hs) = ((ne, hp), hs)

  pub split-Lacks : (s : Text) → All (Lacks sep) (split sep s)
  unfolding split
  split-Lacks [] = (tt, tt)
  split-Lacks (c ∷ s) = elim (Bool-cases (c == sep)) [
    | inl e ↦ rw e (tt, split-Lacks s)
    | inr n ↦ rw n (onto_first-Lacks c (split sep s) (ground arith) (split-Lacks s))
  ]

  onto_first-ne-nil : (c : ℕ) (ps : List Text) → onto_first c ps ≢ []
  onto_first-ne-nil c [] = λ e. cc
  onto_first-ne-nil c (p ∷ ps) = λ e. cc

  pub split-ne-nil : (s : Text) → split sep s ≢ []
  unfolding split
  split-ne-nil [] = λ e. cc
  split-ne-nil (c ∷ s) = elim (Bool-cases (c == sep)) [
    | inl e ↦ rw e (λ q. cc)
    | inr n ↦ rw n (onto_first-ne-nil c (split sep s))
  ]

  join-onto_first :
      (c : ℕ) (ps : List Text)
      → ps ≢ []
      → join (sep ∷ []) (onto_first c ps) ≡ c ∷ join (sep ∷ []) ps
  unfolding join join_after
  join-onto_first c [] ne = absurd (ne refl)
  join-onto_first c (p ∷ []) ne = refl
  join-onto_first c (p ∷ q ∷ ps) ne = refl

  join-nil_cons : (ps : List Text) → ps ≢ [] → join (sep ∷ []) ([] ∷ ps) ≡ sep ∷ join (sep ∷ []) ps
  unfolding join join_after
  join-nil_cons [] ne = absurd (ne refl)
  join-nil_cons (p ∷ ps) ne = refl

  pub join-split : (s : Text) → join (sep ∷ []) (split sep s) ≡ s
  unfolding split
  join-split [] = unfold join join_after in refl
  join-split (c ∷ s) = elim (Bool-cases (c == sep)) [
    | inl e ↦
        rw e (
          join-nil_cons (split sep s) (split-ne-nil s) ∙ ground (arith, join-split s, ==_iff c sep))
    | inr n ↦ rw n (join-onto_first c (split sep s) (split-ne-nil s) ∙ ap (◌∷◌ c) (join-split s))
  ]
