-- ===== src/Render/Dml/Upsert.antt =====
-- What renderConflict makes of the assignments of an upsert.
use unique_dialect.Base.{List, [], ◌∷◌, map, ◌≡◌, refl, sym, ap, ◌∙◌}
use unique_dialect.Dialect.{Dialect, mysql, postgres, sqlite, oracle, other}
use unique_dialect.Ir.{Assignment, ConflictClause}
use unique_dialect.Render.Dml.{
  comma_space, conflict_assignment, conflict_assignments, on_conflict, render_conflict,
}
use unique_dialect.Text.{Text, join}

abbrev pub columns_of : ConflictClause → List Text
columns_of c = map (λ (a : Assignment). a.column) c.assignments

map-map :
    {A B C : Type 0} (f : A → B) (g : B → C) (xs : List A)
    → map (λ x. g (f x)) xs ≡ map g (map f xs)
map-map f g [] = refl
map-map f g (x ∷ xs) = ap (◌∷◌ (g (f x))) (map-map f g xs)

conflict_assignments-columns :
    (assignments : List Assignment) (to : Dialect)
    → conflict_assignments assignments to
      ≡ join comma_space
          (map (conflict_assignment to) (map (λ (a : Assignment). a.column) assignments))
unfolding conflict_assignments
conflict_assignments-columns assignments to =
    ap (join comma_space)
      (map-map (λ (a : Assignment). a.column) (conflict_assignment to) assignments)

same_assignments :
    (a b : ConflictClause) (to : Dialect)
    → columns_of a ≡ columns_of b
    → conflict_assignments a.assignments to ≡ conflict_assignments b.assignments to
same_assignments a b to e =
    conflict_assignments-columns a.assignments to
    ∙ ap (λ cs. join comma_space (map (conflict_assignment to) cs)) e
    ∙ sym (conflict_assignments-columns b.assignments to)

same_on_conflict :
    (a b : ConflictClause) (to : Dialect)
    → a.target_columns ≡ b.target_columns
    → columns_of a ≡ columns_of b
    → on_conflict a to ≡ on_conflict b to
unfolding on_conflict
same_on_conflict a b to t e = rw (t, same_assignments a b to e) refl

-- In every dialect, two upsert clauses on the same target columns that assign to the same columns, in the
-- same order, are written alike, whatever values they assign.
pub render_conflict-columns :
    (a b : ConflictClause) (to : Dialect)
    → a.target_columns ≡ b.target_columns
    → columns_of a ≡ columns_of b
    → render_conflict a to ≡ render_conflict b to
unfolding render_conflict
render_conflict-columns a b mysql t e = rw (same_assignments a b mysql e) refl
render_conflict-columns a b postgres t e = same_on_conflict a b postgres t e
render_conflict-columns a b sqlite t e = same_on_conflict a b sqlite t e
render_conflict-columns a b oracle t e = refl
render_conflict-columns a b (other d) t e = refl
