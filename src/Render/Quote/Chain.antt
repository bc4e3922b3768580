-- ===== src/Render/Quote/Chain.antt =====
-- Quoting an identifier again, for the same or another dialect.
use unique_dialect.Base.{
  ℕ, Bool, true, false, List, [], ◌∷◌, ◌++◌, ◌≡◌, ◌≢◌, refl, sym, ap, ◌∙◌, arith, All, All-append,
  append_assoc,
}
use unique_dialect.Dialect.{Dialect, mysql, postgres, sqlite, oracle, other}
use unique_dialect.Render.Quote.{
  dot, mark, in_quote_cutset, quote_identifier_part, quote_parts, quote_identifier_chain,
}
use unique_dialect.Text.Parts.{Lacks, split-join, split-Lacks, split-ne-nil}
use unique_dialect.Text.Trim.{trim_by-wrapped, trim_by-keep}
use unique_dialect.Text.{
  Text, trim_left, keep_right, trim_right, trim_by, trim_space, is_space, split, join, join_after,
}

mark-in_quote_cutset : (d : Dialect) → in_quote_cutset (mark d) ≡ true
unfolding in_quote_cutset
mark-in_quote_cutset mysql = refl
mark-in_quote_cutset postgres = refl
mark-in_quote_cutset sqlite = refl
mark-in_quote_cutset oracle = refl
mark-in_quote_cutset (other _) = refl

mark-is_space : (d : Dialect) → is_space (mark d) ≡ false
unfolding is_space
mark-is_space mysql = refl
mark-is_space postgres = refl
mark-is_space sqlite = refl
mark-is_space oracle = refl
mark-is_space (other _) = refl

mark-ne-dot : (d : Dialect) → mark d ≢ dot
mark-ne-dot mysql = omega arith
mark-ne-dot postgres = omega arith
mark-ne-dot sqlite = omega arith
mark-ne-dot oracle = omega arith
mark-ne-dot (other _) = omega arith

module _ (d e : Dialect) where
  requote_part :
      (p : Text) → quote_identifier_part (quote_identifier_part p d) e ≡ quote_identifier_part p e
  unfolding quote_identifier_part
  requote_part p =
      ap (λ (t : Text). mark e ∷ t ++ mark e ∷ [])
        (trim_by-wrapped in_quote_cutset p (mark d) (mark-in_quote_cutset d))

  requote_parts : (ps : List Text) → quote_parts (quote_parts ps d) e ≡ quote_parts ps e
  unfolding quote_parts
  requote_parts [] = refl
  requote_parts (p ∷ ps) = cc (requote_part p, requote_parts ps)

-- Trimming puts no byte into a text.
module _ (p : ℕ → Bool) (b : ℕ) where
  trim_left-Lacks : (s : Text) → Lacks b s → Lacks b (trim_left p s)
  unfolding trim_left
  trim_left-Lacks [] h = tt
  trim_left-Lacks (c ∷ s) (ne, h) = ground (arith, trim_left-Lacks s h)

  keep_right-Lacks : (c : ℕ) (r : Text) → c ≢ b → Lacks b r → Lacks b (keep_right p c r)
  unfolding keep_right
  keep_right-Lacks c [] ne h = ground arith
  keep_right-Lacks c (d ∷ r) ne h = (ne, h)

  trim_right-Lacks : (s : Text) → Lacks b s → Lacks b (trim_right p s)
  unfolding trim_right
  trim_right-Lacks [] h = tt
  trim_right-Lacks (c ∷ s) (ne, h) = keep_right-Lacks c (trim_right p s) ne (trim_right-Lacks s h)

  pub trim_by-Lacks : (s : Text) → Lacks b s → Lacks b (trim_by p s)
  unfolding trim_by
  trim_by-Lacks s h = trim_right-Lacks (trim_left p s) (trim_left-Lacks s h)

quote_parts-Lacks :
    (ps : List Text) (d : Dialect) → All (Lacks dot) ps → All (Lacks dot) (quote_parts ps d)
unfolding quote_parts quote_identifier_part
quote_parts-Lacks [] d h = tt
quote_parts-Lacks (p ∷ ps) d (hp, hs) = (
  (
    mark-ne-dot d,
    All-append (λ c. c ≢ dot) (trim_by in_quote_cutset p) (mark d ∷ [])
        (trim_by-Lacks in_quote_cutset dot p hp) (mark-ne-dot d, tt),
  ),
  quote_parts-Lacks ps d hs,
)

quote_parts-ne-nil : (ps : List Text) (d : Dialect) → ps ≢ [] → quote_parts ps d ≢ []
unfolding quote_parts
quote_parts-ne-nil [] d ne = absurd (ne refl)
quote_parts-ne-nil (p ∷ ps) d ne = λ e. cc

-- Quoted parts joined by dots begin and end with the quote mark.
join_after-wrapped :
    (p : Text) (ps : List Text) (d : Dialect)
    → (m : Text) × (join_after (dot ∷ []) (quote_identifier_part p d) (quote_parts ps d)
        ≡ mark d ∷ m ++ mark d ∷ [])
unfolding join_after quote_parts
join_after-wrapped p [] d = (trim_by in_quote_cutset p, unfold quote_identifier_part in refl)
join_after-wrapped p (q ∷ ps) d =
    let (m, e) = join_after-wrapped q ps d in
    let head = trim_by in_quote_cutset p ++ mark d ∷ [] in
    (
      head ++ (dot ∷ mark d ∷ m),
      ap (λ (t : Text). quote_identifier_part p d ++ dot ∷ t) e
          ∙ unfold quote_identifier_part in
            ap (◌∷◌ (mark d)) (sym (append_assoc head (dot ∷ mark d ∷ m) (mark d ∷ []))),
    )

join-trimmed :
    (ps : List Text) (d : Dialect)
    → ps ≢ []
    → trim_space (join (dot ∷ []) (quote_parts ps d)) ≡ join (dot ∷ []) (quote_parts ps d)
join-trimmed [] d ne = absurd (ne refl)
join-trimmed (p ∷ ps) d ne =
    let (m, e) = join_after-wrapped p ps d in
    unfold join quote_parts trim_space in rw e (trim_by-keep is_space m (mark d) (mark-is_space d))

quote_identifier_chain_lem :
    (identifier : Text) (d : Dialect)
    → quote_identifier_chain identifier d
      ≡ join (dot ∷ []) (quote_parts (split dot (trim_space identifier)) d)
quote_identifier_chain_lem identifier d = unfold quote_identifier_chain in refl

module _ (d e : Dialect) where
  requote_list :
      (ps : List Text)
      → ps ≢ []
      → All (Lacks dot) ps
      → quote_identifier_chain (join (dot ∷ []) (quote_parts ps d)) e
        ≡ join (dot ∷ []) (quote_parts ps e)
  requote_list ps ne h =
      let parts =
        split-join dot (quote_parts ps d) (quote_parts-ne-nil ps d ne) (quote_parts-Lacks ps d h) in
      unfold quote_identifier_chain in
      ap (λ (t : Text). join (dot ∷ []) (quote_parts (split dot t) e)) (join-trimmed ps d ne)
      ∙ ap (λ (qs : List Text). join (dot ∷ []) (quote_parts qs e)) parts
      ∙ ap (join (dot ∷ [])) (requote_parts d e ps)

  -- An identifier that was quoted for one dialect is quoted for another, or for the same, as if it
  -- had not been quoted before, whatever the identifier holds.
  pub requote :
      (identifier : Text)
      → quote_identifier_chain (quote_identifier_chain identifier d) e
        ≡ quote_identifier_chain identifier e
  requote identifier =
      ap (λ (t : Text). quote_identifier_chain t e) (quote_identifier_chain_lem identifier d)
      ∙ requote_list (split dot (trim_space identifier)) (split-ne-nil dot (trim_space identifier))
          (split-Lacks dot (trim_space identifier))
      ∙ sym (quote_identifier_chain_lem identifier e)
