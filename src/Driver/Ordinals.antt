-- ===== src/Driver/Ordinals.antt =====
-- The arguments that argsFromSlice of sql_driver.go hands to the driver of the target database.
use unique_dialect.Base.{
  ℕ, zero, suc, ◌+◌, ◌≤◌, List, [], ◌∷◌, Option, none, some, ◌≡◌, refl, ap, arith, length, subst,
  choose,
}
use unique_dialect.Driver.{NamedValue, value_or, args_from_index, args_from_slice}
use unique_dialect.Outcome.{Outcome, ok, err, panic, ◌>>=◌}
use unique_dialect.Params.{GoValue, normalize}

abbrev pub get_elem? {ℓ} : {A : Type ℓ} → List A → ℕ → Option A
get_elem? [] j = none
get_elem? (x ∷ xs) zero = some x
get_elem? (x ∷ xs) (suc j) = get_elem? xs j

-- The arguments stand for the values one by one, the first of them with the given number.
abbrev Numbered : ℕ → List GoValue → List NamedValue → Type 0
Numbered i [] [] = Unit
Numbered i [] (n ∷ ns) = ⊥
Numbered i (v ∷ vs) [] = ⊥
Numbered i (v ∷ vs) (n ∷ ns) =
    ((n.name ≡ []) × (n.ordinal ≡ i + 1) × (value_or v (normalize v) ≡ ok n.value))
    × Numbered (i + 1) vs ns

abbrev pub IsGood : {A : Type 0} → (A → Type 0) → Outcome A → Type 0
IsGood P (ok a) = P a
IsGood P (err e) = ⊥
IsGood P panic = Unit

value_or-IsGood :
    (v : GoValue) (o : Outcome GoValue) → IsGood (λ w. value_or v o ≡ ok w) (value_or v o)
value_or-IsGood v (ok w) = refl
value_or-IsGood v (err e) = refl
value_or-IsGood v panic = tt

args_from_index-Numbered :
    (i : ℕ) (vs : List GoValue) → IsGood (Numbered i vs) (args_from_index i vs)
unfolding args_from_index
args_from_index-Numbered i [] = tt
args_from_index-Numbered i (v ∷ vs) =
    go (value_or v (normalize v)) (args_from_index (i + 1) vs) (value_or-IsGood v (normalize v))
      (args_from_index-Numbered (i + 1) vs)
  where
    go :
        (o : Outcome GoValue) (r : Outcome (List NamedValue))
        → IsGood (λ w. value_or v (normalize v) ≡ ok w) o
        → IsGood (Numbered (i + 1) vs) r
        → IsGood
            (Numbered i (v ∷ vs))
            (o >>= λ w. r >>= λ ns. ok ((record { name = []; ordinal = i + 1; value = w }) ∷ ns))
    go (ok w) (ok ns) h k = ((refl, refl, h), k)
    go (ok w) (err e) h k = k
    go (ok w) panic h k = tt
    go (err e) r h k = h
    go panic r h k = tt

Numbered-length :
    (i : ℕ) (vs : List GoValue) (ns : List NamedValue) → Numbered i vs ns → length ns ≡ length vs
Numbered-length i [] [] h = refl
Numbered-length i [] (n ∷ ns) h = elim h [ ]
Numbered-length i (v ∷ vs) [] h = elim h [ ]
Numbered-length i (v ∷ vs) (n ∷ ns) (_, h) = ap suc (Numbered-length (i + 1) vs ns h)

-- The argument at an index, which is below the number of values.
abbrev pub IsArgument : ℕ → ℕ → List GoValue → ℕ → NamedValue → Type 0
IsArgument i l vs j n =
    (n.name ≡ [])
    × (n.ordinal ≡ i + j + 1)
    × (n.ordinal ≤ i + l)
    × ((v : GoValue) × (get_elem? vs j ≡ some v) × (value_or v (normalize v) ≡ ok n.value))

Numbered-get_elem? :
    (i : ℕ) (vs : List GoValue) (ns : List NamedValue) (j : ℕ) (n : NamedValue)
    → Numbered i vs ns
    → get_elem? ns j ≡ some n
    → IsArgument i (length vs) vs j n
Numbered-get_elem? i vs [] j n h e = cc
Numbered-get_elem? i [] (m ∷ ns) j n h e = elim h [ ]
Numbered-get_elem? i (v ∷ vs) (m ∷ ns) zero n ((a, b, c), h) e =
    subst (λ x. IsArgument i (suc (length vs)) (v ∷ vs) 0 x) (ap (λ o. choose o m (λ x. x)) e)
      (a, omega arith, omega arith, (v, refl, c))
Numbered-get_elem? i (v ∷ vs) (m ∷ ns) (suc j) n (_, h) e =
    let (a, b, c, d) = Numbered-get_elem? (i + 1) vs ns j n h e in (a, omega arith, omega arith, d)

pub args_from_slice-ordinals :
    (vs : List GoValue)
    → IsGood
        (λ ns.
          (length ns ≡ length vs)
          × ((j : ℕ) (n : NamedValue) → get_elem? ns j ≡ some n → IsArgument 0 (length vs) vs j n))
        (args_from_slice vs)
unfolding args_from_slice
args_from_slice-ordinals vs = go (args_from_index 0 vs) (args_from_index-Numbered 0 vs)
  where
    go :
        (o : Outcome (List NamedValue))
        → IsGood (Numbered 0 vs) o
        → IsGood
            (λ ns.
              (length ns ≡ length vs)
              × ((j : ℕ) (n : NamedValue)
                  → get_elem? ns j ≡ some n
                  → IsArgument 0 (length vs) vs j n))
            o
    go (ok ns) h = (Numbered-length 0 vs ns h, λ j n. Numbered-get_elem? 0 vs ns j n h)
    go (err e) h = h
    go panic h = tt
