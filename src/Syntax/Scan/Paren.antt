-- ===== src/Syntax/Scan/Paren.antt =====
-- findMatchingParen against the scans of the prefixes of the input.
use unique_dialect.Base.{
  ℕ, zero, suc, ◌+◌, ◌-◌, ◌≤◌, ◌<◌, Bool, true, false, ◌&&◌, [], ◌∷◌, Option, none, some, ◌≡◌, refl,
  ◌∙◌, arith, ◌==◌, Bool-cases, inl, inr, length, length-drop, take, drop, if◌then◌else◌,
}
use unique_dialect.Syntax.Scan.{
  Scan, initial, at_top, is_plain, step, run, opens, match_paren_from, find_matching_paren,
}
use unique_dialect.Text.{Text}

-- The first `n` bytes from the opening parenthesis on are balanced.
abbrev pub is_balanced : Text → ℕ → Bool
is_balanced t n = at_top (run initial (take n t))

-- Inside a parenthesis only a closing one leads to the top level.
at_top-step :
    (c : ℕ) (s : Scan)
    → 0 < s.depth
    → at_top (step c s) ≡ ((c == b')' && is_plain s) && (s.depth - 1 == 0))
unfolding step
at_top-step c s h = ground arith

depth-step :
    (c : ℕ) (s : Scan)
    → 0 < s.depth
    → ((c == b')' && is_plain s) && (s.depth - 1 == 0)) ≡ false
    → 0 < (step c s).depth
unfolding step
depth-step c s h e = ground arith

at_top-depth : (s : Scan) → 0 < s.depth → at_top s ≡ false
at_top-depth s h = ground arith

-- The loop returns the first place behind which the scan is at the top level.
abbrev Closes : ℕ → Scan → Text → Option ℕ → Type 0
Closes index s t none = (n : ℕ) → at_top (run s (take n t)) ≡ false
Closes index s t (some i) =
    (k : ℕ) × (index + k ≡ i)
    × (k < length t)
    × (at_top (run s (take (suc k) t)) ≡ true)
    × ((n : ℕ) → n ≤ k → at_top (run s (take n t)) ≡ false)

Closes-next :
    (index : ℕ) (s : Scan) (c : ℕ) (t : Text) (o : Option ℕ)
    → 0 < s.depth
    → Closes (index + 1) (step c s) t o
    → Closes index s (c ∷ t) o
Closes-next index s c t none h f = nowhere
  where
    nowhere : (n : ℕ) → at_top (run s (take n (c ∷ t))) ≡ false
    nowhere zero = at_top-depth s h
    nowhere (suc n) = f n
Closes-next index s c t (some i) h (k, e, lt, top, least) =
    (suc k, omega arith, omega arith, top, before)
  where
    before : (n : ℕ) → n ≤ suc k → at_top (run s (take n (c ∷ t))) ≡ false
    before zero _ = at_top-depth s h
    before (suc n) le = least n (omega arith)

match_paren_from-step :
    (index : ℕ) (s : Scan) (c : ℕ) (t : Text)
    → match_paren_from index s (c ∷ t) ≡ (
        if (c == b')' && is_plain s) && (s.depth - 1 == 0)
        then some index
        else match_paren_from (index + 1) (step c s) t)
match_paren_from-step index s c t = unfold match_paren_from in refl

take-nil : (n : ℕ) → take {A = ℕ} n [] ≡ []
take-nil zero = refl
take-nil (suc n) = refl

match_paren_from-Closes :
    (index : ℕ) (s : Scan) (t : Text) → 0 < s.depth → Closes index s t (match_paren_from index s t)
match_paren_from-Closes index s [] h =
    unfold match_paren_from in λ n. rw (take-nil n) (at_top-depth s h)
match_paren_from-Closes index s (c ∷ t) h =
    rw (match_paren_from-step index s c t)
      (branch (λ deep. match_paren_from-Closes (index + 1) (step c s) t deep))
  where
    found :
        ((c == b')' && is_plain s) && (s.depth - 1 == 0)) ≡ true
        → Closes index s (c ∷ t) (some index)
    found e = (0, omega arith, omega arith, at_top-step c s h ∙ e, below)
      where
        below : (n : ℕ) → n ≤ 0 → at_top (run s (take n (c ∷ t))) ≡ false
        below zero _ = at_top-depth s h
        below (suc n) le = absurd (omega arith)

    branch :
        (0 < (step c s).depth
          → Closes (index + 1) (step c s) t (match_paren_from (index + 1) (step c s) t))
        → Closes index s (c ∷ t) (
            if (c == b')' && is_plain s) && (s.depth - 1 == 0)
            then some index
            else match_paren_from (index + 1) (step c s) t)
    branch rest = elim (Bool-cases ((c == b')' && is_plain s) && (s.depth - 1 == 0))) [
      | inl e ↦ rw e (found e)
      | inr e ↦ rw e (Closes-next index s c t _ h (rest (depth-step c s h e)))
    ]

-- The first round, at the opening parenthesis.
match_paren_from-open :
    (index c : ℕ) (t : Text)
    → (c == b'(') ≡ true
    → match_paren_from index initial (c ∷ t) ≡ match_paren_from (index + 1) (step c initial) t
match_paren_from-open index c t o = match_paren_from-step index initial c t ∙ rw (other o)
  where
    other :
        (c == b'(') ≡ true → ((c == b')' && is_plain initial) && (initial.depth - 1 == 0)) ≡ false
    other o = ground arith

step-open : (c : ℕ) → (c == b'(') ≡ true → (step c initial).depth ≡ 1
unfolding step
step-open c o = ground arith

-- The result of the whole loop, with places counted from the opening parenthesis.
abbrev Spans : ℕ → Text → Option ℕ → Type 0
Spans index t none = (n : ℕ) → 0 < n → is_balanced t n ≡ false
Spans index t (some i) =
    (k : ℕ) × (0 < k)
    × (index + k ≡ i)
    × (k < length t)
    × (is_balanced t (suc k) ≡ true)
    × ((n : ℕ) → 0 < n → n ≤ k → is_balanced t n ≡ false)

Closes-Spans :
    (index c : ℕ) (t : Text) (o : Option ℕ)
    → Closes (index + 1) (step c initial) t o
    → Spans index (c ∷ t) o
Closes-Spans index c t none f = beyond
  where
    beyond : (n : ℕ) → 0 < n → is_balanced (c ∷ t) n ≡ false
    beyond zero h = absurd (omega arith)
    beyond (suc n) h = f n
Closes-Spans index c t (some i) (k, e, lt, top, least) =
    (suc k, omega arith, omega arith, omega arith, top, before)
  where
    before : (n : ℕ) → 0 < n → n ≤ suc k → is_balanced (c ∷ t) n ≡ false
    before zero h _ = absurd (omega arith)
    before (suc n) h le = least n (omega arith)

match_paren_from-Spans :
    (index : ℕ) (t : Text) → opens t ≡ true → Spans index t (match_paren_from index initial t)
match_paren_from-Spans index [] o = cc
match_paren_from-Spans index (c ∷ t) o = rw (match_paren_from-open index c t o) (
    Closes-Spans index c t _
      (match_paren_from-Closes (index + 1) (step c initial) t (omega (arith, step-open c o))))

if-eq-some {ℓ} :
    {A : Type ℓ} (b : Bool) (o : Option A) (a : A)
    → (if b then o else none) ≡ some a
    → (b ≡ true) × (o ≡ some a)
if-eq-some true o a e = (refl, e)
if-eq-some false o a e = cc

find_matching_paren-opens :
    (input : Text) (start i : ℕ)
    → find_matching_paren input start ≡ some i
    → (opens (drop start input) ≡ true)
      × (match_paren_from start initial (drop start input) ≡ some i)
find_matching_paren-opens input start i e =
    unfold find_matching_paren in
    if-eq-some (opens (drop start input)) (match_paren_from start initial (drop start input)) i e

-- The index that findMatchingParen returns lies behind the opening parenthesis and within the
-- input, the input from the one to the other is balanced, and no shorter part of it is.
pub find_matching_paren-some :
    (input : Text) (start i : ℕ)
    → find_matching_paren input start ≡ some i
    → (start < i)
      × (i < length input)
      × (is_balanced (drop start input) (i + 1 - start) ≡ true)
      × ((n : ℕ) → 0 < n → start + n ≤ i → is_balanced (drop start input) n ≡ false)
find_matching_paren-some input start i e =
    let (o, e') = find_matching_paren-opens input start i e in
    let (k, behind, at, lt, balanced, least) =
      rw e' at (match_paren_from-Spans start (drop start input) o) in
    let size : suc k ≡ i + 1 - start = omega arith in
    (
      omega arith,
      omega (arith, length-drop start input),
      rw (← size) balanced,
      λ n h le. least n h (omega arith),
    )
