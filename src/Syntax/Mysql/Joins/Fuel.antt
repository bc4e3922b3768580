-- ===== src/Syntax/Mysql/Joins/Fuel.antt =====
-- The loops over the joins, read without their fuel.
use unique_dialect.Base.{
  ℕ, zero, suc, ◌<◌, List, [], ◌∷◌, ◌++◌, Option, none, some, ◌≡◌, refl, sym, ◌∙◌, subst, arith,
  choose, if◌then◌else◌, length, take, Settles, Settles-at_once, Settles-later, Settles-round,
  Settles-if, Settles-choose, Settles-or_else, Bool-cases, inl, inr,
}
use unique_dialect.Syntax.Joins.Sizes.{
  IsJoin, find_join-IsJoin, length-behind, length-split_join_remainder, length-trim_space,
}
use unique_dialect.Syntax.Joins.{find_join, split_join_remainder, join_of, behind}
use unique_dialect.Syntax.Mysql.Joins.{
  append_joins_fuel, append_joins, from_and_joins_fuel, parse_from_and_joins,
}
use unique_dialect.Syntax.{Join}
use unique_dialect.Text.{Text, trim_space, is_empty}

-- What stands behind the join that is found first is shorter.
rest_shorter :
    (s : Text) (found : ℕ × Text)
    → find_join s ≡ some found
    → length (trim_space (split_join_remainder (behind s found.0 found.1)).tail) < length s
rest_shorter s (i, keyword) e =
    let is = subst (IsJoin s) e (find_join-IsJoin s) in
    let rest = behind s i keyword in
    omega (
      arith,
      length-trim_space (split_join_remainder rest).tail,
      length-split_join_remainder rest,
      length-behind s i keyword is,
    )

-- One call of appendJoins, from the ways it comes back and goes on.
abbrev pub append_joins_round {ℓ} :
    {R : Type ℓ} → (List Join → R) → (Text → List Join → R) → Text → List Join → R
append_joins_round done next s joins =
    if is_empty (trim_space s)
    then done joins
    else choose (find_join s) (done joins) λ found.
      let parts = split_join_remainder (behind s found.0 found.1) in
      next (trim_space parts.tail) (joins ++ join_of found.1 parts ∷ [])

append_joins_fuel-step :
    (fuel : ℕ) (s : Text) (joins : List Join)
    → append_joins_fuel (suc fuel) s joins
      ≡ append_joins_round some (append_joins_fuel fuel) s joins
append_joins_fuel-step fuel s joins = unfold append_joins_fuel in refl

append_joins_fuel-Settles :
    (bound : ℕ) (s : Text) (joins : List Join)
    → length s < bound
    → Settles (suc (length s)) (λ fuel. append_joins_fuel fuel s joins)
append_joins_fuel-Settles zero s joins h = absurd (omega arith)
append_joins_fuel-Settles (suc bound) s joins h =
    Settles-round (length s) _ _ (λ fuel. append_joins_fuel-step fuel s joins)
      (Settles-if _ (is_empty (trim_space s)) _ _ (Settles-at_once _ joins) (
        Settles-choose _ (find_join s) _ _ (Settles-at_once _ joins) λ found e.
          let less = rest_shorter s found e in
          Settles-later _ _ _ less (append_joins_fuel-Settles bound _ _ (omega arith))))

append_joins_fuel-run :
    (fuel : ℕ) (s : Text) (joins : List Join)
    → length s < fuel
    → append_joins_fuel fuel s joins ≡ some (append_joins s joins)
unfolding append_joins
append_joins_fuel-run fuel s joins h =
    Settles-or_else (suc (length s)) (λ n. append_joins_fuel n s joins) fuel (suc (length s)) joins
      (append_joins_fuel-Settles (suc (length s)) s joins (omega arith)) h (omega arith)

some-injective : {A : Type 0} {a b : A} → some a ≡ some b → a ≡ b
some-injective e = cc

-- The call of appendJoins, without any fuel: with no text or no join left it returns its list, and otherwise goes
-- on with the text behind the first join and the list with that join at its end.
pub append_joins_lem :
    (s : Text) (joins : List Join)
    → append_joins s joins ≡ append_joins_round (λ js. js) append_joins s joins
append_joins_lem s joins = some-injective (
    sym (append_joins_fuel-run (suc (suc (length s))) s joins (omega arith))
    ∙ append_joins_fuel-step (suc (length s)) s joins
    ∙ runs)
  where
    runs :
        append_joins_round some (append_joins_fuel (suc (length s))) s joins
        ≡ some (append_joins_round (λ js. js) append_joins s joins)
    runs = elim (Bool-cases (is_empty (trim_space s))) [
      | inl e ↦ rw e refl
      | inr e ↦ rw e (after (find_join s) refl)
    ]
      where
        after :
            (o : Option (ℕ × Text))
            → find_join s ≡ o
            → (choose o (some joins) λ found.
                let parts = split_join_remainder (behind s found.0 found.1) in
                append_joins_fuel
                  (suc (length s))
                  (trim_space parts.tail)
                  (joins ++ join_of found.1 parts ∷ []))
              ≡ some (
                  choose o joins λ found.
                    let parts = split_join_remainder (behind s found.0 found.1) in
                    append_joins (trim_space parts.tail) (joins ++ join_of found.1 parts ∷ []))
        after none e = refl
        after (some found) e =
            let less = rest_shorter s found e in append_joins_fuel-run _ _ _ (omega arith)

from_and_joins_fuel-step :
    (fuel : ℕ) (base : Text) (joins : List Join)
    → from_and_joins_fuel (suc fuel) base joins
      ≡ choose (find_join base) (some (trim_space base, joins)) λ found.
        let parts = split_join_remainder (behind base found.0 found.1) in
        let joins' = joins ++ join_of found.1 parts ∷ [] in
        if is_empty (trim_space (take found.0 base))
        then from_and_joins_fuel fuel (trim_space parts.tail) joins'
        else some (trim_space (take found.0 base), append_joins (trim_space parts.tail) joins')
from_and_joins_fuel-step fuel base joins = unfold from_and_joins_fuel in refl

from_and_joins_fuel-Settles :
    (bound : ℕ) (base : Text) (joins : List Join)
    → length base < bound
    → Settles (suc (length base)) (λ fuel. from_and_joins_fuel fuel base joins)
from_and_joins_fuel-Settles zero base joins h = absurd (omega arith)
from_and_joins_fuel-Settles (suc bound) base joins h =
    Settles-round (length base) _ _ (λ fuel. from_and_joins_fuel-step fuel base joins)
      (Settles-choose _ (find_join base) _ _ (Settles-at_once _ _) λ found e.
        let less = rest_shorter base found e in
        Settles-if _ (is_empty (trim_space (take found.0 base))) _ _
          (Settles-later _ _ _ less (from_and_joins_fuel-Settles bound _ _ (omega arith)))
          (Settles-at_once _ _))

-- The loop of parseFromAndJoins comes to an end, with one result for all fuels above the length of the trimmed
-- text, and the function returns it.
pub parse_from_and_joins-fuel :
    (fuel : ℕ) (input : Text)
    → length (trim_space input) < fuel
    → from_and_joins_fuel fuel (trim_space input) [] ≡ some (parse_from_and_joins input)
unfolding parse_from_and_joins
parse_from_and_joins-fuel fuel input h =
    let base = trim_space input in
    Settles-or_else (suc (length base)) (λ n. from_and_joins_fuel n base []) fuel
      (suc (length base)) (base, [])
      (from_and_joins_fuel-Settles (suc (length base)) base [] (omega arith)) h (omega arith)
