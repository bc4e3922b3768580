-- ===== src/Syntax/Postgres/Joins/Fuel.antt =====
-- The loop over the joins comes to an end.
use unique_dialect.Base.{
  ℕ, zero, suc, ◌+◌, ◌<◌, List, [], ◌∷◌, ◌++◌, some, ◌≡◌, refl, arith, choose, if◌then◌else◌,
  length, length-drop, take, drop, Settles, Settles-at_once, Settles-later, Settles-round,
  Settles-if, Settles-choose, Settles-or_else,
}
use unique_dialect.Syntax.Joins.Sizes.{
  find_top_level_keyword-pos, length-trim_space, length-trim_prefix,
}
use unique_dialect.Syntax.Joins.{find_join}
use unique_dialect.Syntax.Scan.{find_top_level_keyword}
use unique_dialect.Syntax.Postgres.Joins.{keyword_of, spaced, joins_fuel, collect_joins}
use unique_dialect.Syntax.{Join}
use unique_dialect.Text.{Text, codes, trim_space, trim_prefix, is_empty}

-- What stands behind the keyword of the first join, and what stands behind the ` ON ` there.
abbrev joined : Text → Text
joined remainder = trim_space (trim_prefix remainder (keyword_of (find_join (spaced remainder))))

abbrev conditions : Text → ℕ → Text
conditions rest on_index = trim_space (drop (on_index + length (codes " ON ")) rest)

joins_fuel-step :
    (fuel : ℕ) (remainder : Text) (joins : List Join)
    → joins_fuel (suc fuel) remainder joins ≡ (
        if is_empty remainder
        then some joins
        else choose (find_top_level_keyword (joined remainder) (codes " ON ")) (some joins) λ i.
          let keyword = keyword_of (find_join (spaced remainder)) in
          let table = trim_space (take i (joined remainder)) in
          let after_on = conditions (joined remainder) i in
          choose
            (find_join (spaced after_on))
            (some
              (joins ++ record { kind = keyword; table = table; on = trim_space after_on } ∷ []))
            λ next. joins_fuel fuel (trim_space (drop next.0 after_on)) (
              joins
              ++ record { kind = keyword; table = table; on = trim_space (take next.0 after_on) }
                ∷ []))
joins_fuel-step fuel remainder joins = unfold joins_fuel in refl

rest_shorter :
    (remainder : Text) (i next : ℕ)
    → find_top_level_keyword (joined remainder) (codes " ON ") ≡ some i
    → length (trim_space (drop next (conditions (joined remainder) i))) < length remainder
unfolding codes
rest_shorter remainder i next e =
    let after_on = conditions (joined remainder) i in
    let trimmed = trim_prefix remainder (keyword_of (find_join (spaced remainder))) in
    omega (
      arith,
      find_top_level_keyword-pos (joined remainder) (codes " ON ") i e,
      length-trim_space (drop next after_on),
      length-drop next after_on,
      length-trim_space (drop (i + 4) (joined remainder)),
      length-drop (i + 4) (joined remainder),
      length-trim_space trimmed,
      length-trim_prefix remainder (keyword_of (find_join (spaced remainder))),
    )

joins_fuel-Settles :
    (bound : ℕ) (remainder : Text) (joins : List Join)
    → length remainder < bound
    → Settles (suc (length remainder)) (λ fuel. joins_fuel fuel remainder joins)
joins_fuel-Settles zero s joins h = absurd (omega arith)
joins_fuel-Settles (suc bound) s joins h =
    Settles-round (length s) _ _ (λ fuel. joins_fuel-step fuel s joins)
      (Settles-if _ (is_empty s) _ _ (Settles-at_once _ joins) (
        Settles-choose _ (find_top_level_keyword (joined s) (codes " ON ")) _ _
          (Settles-at_once _ joins)
          λ i e.
            Settles-choose _ (find_join (spaced (conditions (joined s) i))) _ _
              (Settles-at_once _ _)
              λ next _.
                let less = rest_shorter s i next.0 e in
                Settles-later _ _ _ less (joins_fuel-Settles bound _ _ (omega arith))))

-- The loop over the joins comes to an end, with one result for all fuels above the length of its
-- text, and parseFromAndJoins goes on with that list.
pub collect_joins-fuel :
    (fuel : ℕ) (remainder : Text)
    → length remainder < fuel
    → joins_fuel fuel remainder [] ≡ some (collect_joins remainder)
unfolding collect_joins
collect_joins-fuel fuel s h =
    Settles-or_else (suc (length s)) (λ n. joins_fuel n s []) fuel (suc (length s)) []
      (joins_fuel-Settles (suc (length s)) s [] (omega arith)) h (omega arith)
