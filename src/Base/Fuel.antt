-- ===== src/Base/Fuel.antt =====
-- Loops on fuel that come to an end: from some fuel on, all runs have one result.
use Prim.Native.Nat.{ℕ, zero, suc, ◌≤◌}
use mathlib.Core.Bool.{Bool, true, false}
use mathlib.Core.Option.{Option, none, some}
use mathlib.Core.Path.{◌≡◌, refl, ◌∙◌}
use native.Mathlib.Omega.{arith}
use unique_dialect.Base.Tests.{choose, if◌then◌else◌}

abbrev pub or_else {ℓ} : {A : Type ℓ} → A → Option A → A
or_else a none = a
or_else a (some b) = b

module _ {ℓ} {R : Type ℓ} where
  abbrev pub Settles : ℕ → (ℕ → Option R) → Type ℓ
  Settles n run = (r : R) × ((fuel : ℕ) → n ≤ fuel → run fuel ≡ some r)

  pub Settles-at_once : (n : ℕ) (r : R) → Settles n (λ fuel. some r)
  Settles-at_once n r = (r, λ fuel h. refl)

  pub Settles-later : (n m : ℕ) (run : ℕ → Option R) → n ≤ m → Settles n run → Settles m run
  Settles-later n m run h (r, settled) = (r, λ fuel more. settled fuel (omega arith))

  -- A run that spends one unit of its fuel.
  pub Settles-round :
      (n : ℕ) (run body : ℕ → Option R)
      → ((fuel : ℕ) → run (suc fuel) ≡ body fuel)
      → Settles n body
      → Settles (suc n) run
  Settles-round n run body step (r, settled) = (r, after)
    where
      after : (fuel : ℕ) → suc n ≤ fuel → run fuel ≡ some r
      after zero h = absurd (omega arith)
      after (suc fuel) h = step fuel ∙ settled fuel (omega arith)

  pub Settles-if :
      (n : ℕ) (b : Bool) (x y : ℕ → Option R)
      → Settles n x
      → Settles n y
      → Settles n (λ fuel. if b then x fuel else y fuel)
  Settles-if n true x y hx hy = hx
  Settles-if n false x y hx hy = hy

  pub Settles-choose {κ} :
      {A : Type κ} (n : ℕ) (o : Option A) (d : ℕ → Option R) (f : A → ℕ → Option R)
      → Settles n d
      → ((a : A) → o ≡ some a → Settles n (f a))
      → Settles n (λ fuel. choose o (d fuel) (λ a. f a fuel))
  Settles-choose n none d f hd hf = hd
  Settles-choose n (some a) d f hd hf = hf a refl

  -- With enough fuel, each run has the result of the one whose fuel a wrapper chose.
  pub Settles-or_else :
      (n : ℕ) (run : ℕ → Option R) (fuel chosen : ℕ) (d : R)
      → Settles n run
      → n ≤ fuel
      → n ≤ chosen
      → run fuel ≡ some (or_else d (run chosen))
  Settles-or_else n run fuel chosen d (r, settled) h k = rw (settled fuel h, settled chosen k) refl
