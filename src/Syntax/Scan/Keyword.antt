-- ===== src/Syntax/Scan/Keyword.antt =====
-- findTopLevelKeyword against a description by prefixes and suffixes of the input.
use unique_dialect.Base.{
  ℕ, zero, suc, ◌+◌, ◌≤◌, ◌<◌, Bool, true, false, ◌&&◌, [], ◌∷◌, Option, none, some, ◌≡◌, ◌≢◌, refl,
  arith, ltb, Bool-cases, inl, inr, length, length-drop, take, drop, if◌then◌else◌,
}
use unique_dialect.Syntax.Scan.{
  Scan, initial, at_top, step, run, find_keyword_from, find_top_level_keyword,
}
use unique_dialect.Text.{Text, to_upper, has_prefix}

-- The keyword, in upper case, stands at place `j` of the input, whose scan up to and with that
-- byte ends outside every quote and parenthesis.
abbrev pub is_hit_from : Text → Scan → Text → ℕ → Bool
is_hit_from upper s t j = at_top (run s (take (suc j) t)) && has_prefix (to_upper (drop j t)) upper

abbrev pub is_hit : Text → Text → ℕ → Bool
is_hit input keyword = is_hit_from (to_upper keyword) initial input

pub has_prefix-length : (t p : Text) → has_prefix t p ≡ true → length p ≤ length t
unfolding has_prefix
has_prefix-length t [] h = omega arith
has_prefix-length [] (b ∷ p) h = cc
has_prefix-length (a ∷ t) (b ∷ p) h = ground (arith, has_prefix-length t p)

pub length-to_upper : (t : Text) → length (to_upper t) ≡ length t
length-to_upper [] = refl
length-to_upper (c ∷ t) = omega (arith, length-to_upper t)

length-drop-le : (n : ℕ) (t : Text) → length (drop n t) ≤ length t
length-drop-le zero t = omega arith
length-drop-le (suc n) [] = omega arith
length-drop-le (suc n) (c ∷ t) = omega (arith, length-drop-le n t)

-- No keyword fits into a text that is shorter.
short-is_hit_from :
    (upper : Text) (s : Scan) (t : Text) (j : ℕ)
    → length t < length upper
    → is_hit_from upper s t j ≡ false
short-is_hit_from upper s t j h = ground (
  arith,
  has_prefix-length (to_upper (drop j t)) upper,
  length-to_upper (drop j t),
  length-drop-le j t,
)

-- The loop returns the first hit, if it returns one.
abbrev First : Text → ℕ → Scan → Text → Option ℕ → Type 0
First upper index s t none = (j : ℕ) → is_hit_from upper s t j ≡ false
First upper index s t (some i) =
    (k : ℕ) × (index + k ≡ i)
    × (is_hit_from upper s t k ≡ true)
    × ((j : ℕ) → j < k → is_hit_from upper s t j ≡ false)

-- A place that is no hit is passed over.
First-next :
    (upper : Text) (index : ℕ) (s : Scan) (c : ℕ) (t : Text) (o : Option ℕ)
    → is_hit_from upper s (c ∷ t) 0 ≡ false
    → First upper (index + 1) (step c s) t o
    → First upper index s (c ∷ t) o
First-next upper index s c t none miss f = nowhere
  where
    nowhere : (j : ℕ) → is_hit_from upper s (c ∷ t) j ≡ false
    nowhere zero = miss
    nowhere (suc j) = f j
First-next upper index s c t (some i) miss (k, e, hit, least) = (suc k, omega arith, hit, before)
  where
    before : (j : ℕ) → j < suc k → is_hit_from upper s (c ∷ t) j ≡ false
    before zero h = miss
    before (suc j) h = least j (omega arith)

-- One round of the loop.
find_keyword_from-step :
    (upper : Text) (index : ℕ) (s : Scan) (c : ℕ) (t : Text)
    → find_keyword_from upper index s (c ∷ t) ≡ (
        if ltb (length (c ∷ t)) (length upper)
        then none
        else if is_hit_from upper s (c ∷ t) 0
        then some index
        else find_keyword_from upper (index + 1) (step c s) t)
find_keyword_from-step upper index s c t = unfold find_keyword_from in refl

find_keyword_from-First :
    (upper : Text) (index : ℕ) (s : Scan) (t : Text)
    → 0 < length upper
    → First upper index s t (find_keyword_from upper index s t)
find_keyword_from-First upper index s [] ne = nowhere (unfold find_keyword_from in refl)
  where
    nowhere :
        find_keyword_from upper index s [] ≡ none
        → First upper index s [] (find_keyword_from upper index s [])
    nowhere e = rw e (λ j. short-is_hit_from upper s [] j ne)
find_keyword_from-First upper index s (c ∷ t) ne =
    rw (find_keyword_from-step upper index s c t)
      (branch (find_keyword_from-First upper (index + 1) (step c s) t ne))
  where
    branch :
        First upper (index + 1) (step c s) t (find_keyword_from upper (index + 1) (step c s) t)
        → First upper index s (c ∷ t) (
            if ltb (length (c ∷ t)) (length upper)
            then none
            else if is_hit_from upper s (c ∷ t) 0
            then some index
            else find_keyword_from upper (index + 1) (step c s) t)
    branch rest = elim (Bool-cases (ltb (length (c ∷ t)) (length upper))) [
      | inl short ↦ rw short (λ j. short-is_hit_from upper s (c ∷ t) j (ground arith))
      | inr fits ↦ elim (Bool-cases (is_hit_from upper s (c ∷ t) 0)) [
        | inl hit ↦ rw (fits, hit) (0, omega arith, hit, λ j h. absurd (omega arith))
        | inr miss ↦ rw (fits, miss) (First-next upper index s c t _ miss rest)
      ]
    ]

length-pos : (t : Text) → t ≢ [] → 0 < length t
length-pos [] ne = absurd (ne refl)
length-pos (c ∷ t) ne = omega arith

find_top_level_keyword-First :
    (input keyword : Text)
    → keyword ≢ []
    → First (to_upper keyword) 0 initial input (find_top_level_keyword input keyword)
find_top_level_keyword-First input keyword ne =
    unfold find_top_level_keyword in
    find_keyword_from-First (to_upper keyword) 0 initial input
      (omega (arith, length-to_upper keyword, length-pos keyword ne))

-- A hit lies within the input.
is_hit-fits :
    (keyword input : Text) (k : ℕ)
    → keyword ≢ []
    → is_hit input keyword k ≡ true
    → k + length keyword ≤ length input
is_hit-fits keyword input k ne hit = ground (
  arith,
  has_prefix-length (to_upper (drop k input)) (to_upper keyword),
  length-to_upper (drop k input),
  length-to_upper keyword,
  length-drop k input,
  length-pos keyword ne,
)

-- An index that findTopLevelKeyword returns for a keyword that is not empty is the first place
-- where the keyword stands outside every quote and parenthesis, and the keyword lies within the
-- input there.
pub find_top_level_keyword-some :
    (input keyword : Text) (i : ℕ)
    → keyword ≢ []
    → find_top_level_keyword input keyword ≡ some i
    → (is_hit input keyword i ≡ true)
      × (i + length keyword ≤ length input)
      × ((j : ℕ) → j < i → is_hit input keyword j ≡ false)
find_top_level_keyword-some input keyword i ne e =
    let (k, at, hit, least) = rw e at (find_top_level_keyword-First input keyword ne) in
    let same : k ≡ i = omega arith in rw (← same) (hit, is_hit-fits keyword input k ne hit, least)

-- For a keyword that is not empty findTopLevelKeyword returns -1 only if the keyword stands nowhere
-- outside every quote and parenthesis.
pub find_top_level_keyword-none :
    (input keyword : Text)
    → keyword ≢ []
    → find_top_level_keyword input keyword ≡ none
    → (j : ℕ) → is_hit input keyword j ≡ false
find_top_level_keyword-none input keyword ne e =
    rw e at (find_top_level_keyword-First input keyword ne)
