-- ===== src/Normalize/Alter/Order.antt =====
-- The order of the clauses of ALTER TABLE under normalizeTiDBAlterTable of
-- internal/normalize/tidb_ddl.go.
use unique_dialect.Base.{
  Bool, true, false, List, [], ◌∷◌, ◌++◌, map, Option, none, some, if◌then◌else◌, ◌≡◌, refl, ap,
  ◌∙◌, append_assoc, append-nil,
}
use mathlib.Core.List.{map-append}
use unique_dialect.Ir
use unique_dialect.Normalize.Alter.Gather.{
  Gathered, flushed, flush, gather_changes, gather_foreign_key, gather_apart, gather_all,
  gathered_nothing, alter_rendered, alter_table_on, normalize_tidb_alter_table,
  should_split_alter_table_before_add_foreign_key,
}
use unique_dialect.Normalize.Alter.{Effect, changes, foreign_key, apart, keep_raw, effect_of}
use unique_dialect.Normalize.Dml.{normalize_tidb_raw}
use unique_dialect.Normalize.Tables.{rendered_of}
use unique_dialect.Outcome.{Outcome, ok, err, panic, ◌>>=◌}
use unique_dialect.Text.{Text, trim_space}
use unique_dialect.Tidb

-- One change of a table, or a statement that is none of ALTER TABLE.
pub data Operation : Type 0 where
  change : Ir.AlterTableSpec → Operation
  alone : Ir.Statement → Operation

abbrev pub operations_of : Ir.Statement → List Operation
operations_of (Ir.alter_table a) = map change a.specs
operations_of s = alone s ∷ []

abbrev pub operations_of_all : List Ir.Statement → List Operation
operations_of_all [] = []
operations_of_all (s ∷ ss) = operations_of s ++ operations_of_all ss

abbrev pub operations : Ir.Rendered → List Operation
operations (Ir.single s) = operations_of s
operations (Ir.batch ss) = operations_of_all ss

abbrev pub effect_operations : Effect → List Operation
effect_operations (changes specs) = map change specs
effect_operations (foreign_key spec) = change spec ∷ []
effect_operations (apart s) = operations_of s
effect_operations keep_raw = []

abbrev pub behind {ℓ} : {A : Type ℓ} → List A → Option (List A) → Option (List A)
behind xs none = none
behind xs (some ys) = some (xs ++ ys)

-- The operations, or the text as it is.
abbrev pub or_raw : Text → Option (List Operation) → List Operation
or_raw sql none = operations_of (normalize_tidb_raw sql)
or_raw sql (some xs) = xs

-- What the clauses ask for, one after the other; `none` if one of them cannot be read.
abbrev pub clause_operations :
    Text → List (Option Tidb.AlterTableSpec) → Outcome (Option (List Operation))
clause_operations table [] = ok (some [])
clause_operations table (none ∷ specs) = clause_operations table specs
clause_operations table (some s ∷ specs) = do
  effect ← effect_of table s
  elim effect [
    | changes added ↦ clause_operations table specs >>= λ o. ok (behind (map change added) o)
    | foreign_key added ↦ clause_operations table specs >>= λ o. ok (behind (change added ∷ []) o)
    | apart stmt ↦ clause_operations table specs >>= λ o. ok (behind (operations_of stmt) o)
    | keep_raw ↦ ok none
  ]

abbrev gathered_operations : Gathered → List Operation
gathered_operations g = operations_of_all g.statements ++ map change g.specs

operations_of_all-append :
    (xs ys : List Ir.Statement)
    → operations_of_all (xs ++ ys) ≡ operations_of_all xs ++ operations_of_all ys
operations_of_all-append [] ys = refl
operations_of_all-append (x ∷ xs) ys = simp (operations_of_all-append xs ys, append_assoc)

flushed-operations :
    (table : Text) (ss : List Ir.Statement) (specs : List Ir.AlterTableSpec)
    → operations_of_all (flushed table ss specs) ≡ operations_of_all ss ++ map change specs
unfolding flushed
flushed-operations table ss [] = simp (append-nil)
flushed-operations table ss (s ∷ specs) = simp (operations_of_all-append, append-nil)

flush-operations :
    (table : Text) (g : Gathered) → gathered_operations (flush table g) ≡ gathered_operations g
unfolding flush
flush-operations table g = simp (append-nil, flushed-operations)

gather_changes-operations :
    (specs : List Ir.AlterTableSpec) (g : Gathered)
    → gathered_operations (gather_changes specs g) ≡ gathered_operations g ++ map change specs
unfolding gather_changes
gather_changes-operations specs g = simp (map-append, append_assoc)

gather_foreign_key-operations :
    (table : Text) (s : Ir.AlterTableSpec) (g : Gathered)
    → gathered_operations (gather_foreign_key table s g) ≡ gathered_operations g ++ change s ∷ []
unfolding gather_foreign_key
gather_foreign_key-operations table s g =
    go (should_split_alter_table_before_add_foreign_key g.specs s.parts)
  where
    go :
        (b : Bool)
        → gathered_operations (gather_changes (s ∷ []) (if b then flush table g else g))
          ≡ gathered_operations g ++ change s ∷ []
    go true =
        gather_changes-operations (s ∷ []) (flush table g)
        ∙ ap (λ (xs : List Operation). xs ++ change s ∷ []) (flush-operations table g)
    go false = gather_changes-operations (s ∷ []) g

gather_apart-operations :
    (table : Text) (stmt : Ir.Statement) (g : Gathered)
    → gathered_operations (gather_apart table stmt g) ≡ gathered_operations g ++ operations_of stmt
unfolding gather_apart flush
gather_apart-operations table stmt g =
    simp (append-nil, operations_of_all-append, flushed-operations)

abbrev viewed : Option Gathered → Option (List Operation)
viewed none = none
viewed (some g) = some (gathered_operations g)

behind-behind :
    (xs ys : List Operation) (m : Outcome (Option (List Operation)))
    → (m >>= λ o. ok (behind (xs ++ ys) o))
      ≡ ((m >>= λ o. ok (behind ys o)) >>= λ o. ok (behind xs o))
behind-behind xs ys (ok none) = refl
behind-behind xs ys (ok (some zs)) =
    ap (λ (l : List Operation). ok (some l)) (append_assoc xs ys zs)
behind-behind xs ys (err e) = refl
behind-behind xs ys panic = refl

abbrev Follows : Text → List (Option Tidb.AlterTableSpec) → Gathered → Type 0
Follows table specs g =
    (gather_all table specs g >>= λ r. ok (viewed r))
    ≡ (clause_operations table specs >>= λ o. ok (behind (gathered_operations g) o))

-- One clause, whatever it does, in front of clauses that are kept in order.
effect-operations :
    (table : Text) (specs : List (Option Tidb.AlterTableSpec)) (g : Gathered)
    → ((g' : Gathered) → Follows table specs g')
    → (m : Outcome Effect)
    → ((m >>= λ effect. elim effect [
      | changes added ↦ gather_all table specs (gather_changes added g)
      | foreign_key added ↦ gather_all table specs (gather_foreign_key table added g)
      | apart stmt ↦ gather_all table specs (gather_apart table stmt g)
      | keep_raw ↦ ok none
    ])
        >>= λ r. ok (viewed r))
      ≡ ((m >>= λ effect. elim effect [
        | changes added ↦ clause_operations table specs >>= λ o. ok (behind (map change added) o)
        | foreign_key added ↦
            clause_operations table specs >>= λ o. ok (behind (change added ∷ []) o)
        | apart stmt ↦ clause_operations table specs >>= λ o. ok (behind (operations_of stmt) o)
        | keep_raw ↦ ok none
      ])
          >>= λ o. ok (behind (gathered_operations g) o))
effect-operations table specs g ih = go
  where
    next :
        (g' : Gathered) (xs : List Operation)
        → gathered_operations g' ≡ gathered_operations g ++ xs
        → (gather_all table specs g' >>= λ r. ok (viewed r)) ≡ (
            (clause_operations table specs >>= λ o. ok (behind xs o)) >>= λ o.
            ok (behind (gathered_operations g) o))
    next g' xs e =
        ih g' ∙ (rw e (behind-behind (gathered_operations g) xs (clause_operations table specs)))

    go :
        (m : Outcome Effect)
        → ((m >>= λ effect. elim effect [
          | changes added ↦ gather_all table specs (gather_changes added g)
          | foreign_key added ↦ gather_all table specs (gather_foreign_key table added g)
          | apart stmt ↦ gather_all table specs (gather_apart table stmt g)
          | keep_raw ↦ ok none
        ])
            >>= λ r. ok (viewed r))
          ≡ ((m >>= λ effect. elim effect [
            | changes added ↦
                clause_operations table specs >>= λ o. ok (behind (map change added) o)
            | foreign_key added ↦
                clause_operations table specs >>= λ o. ok (behind (change added ∷ []) o)
            | apart stmt ↦ clause_operations table specs >>= λ o. ok (behind (operations_of stmt) o)
            | keep_raw ↦ ok none
          ])
              >>= λ o. ok (behind (gathered_operations g) o))
    go (ok (changes added)) = next _ _ (gather_changes-operations added g)
    go (ok (foreign_key added)) = next _ _ (gather_foreign_key-operations table added g)
    go (ok (apart stmt)) = next _ _ (gather_apart-operations table stmt g)
    go (ok keep_raw) = refl
    go (err e) = refl
    go panic = refl

gather_all-operations :
    (table : Text) (specs : List (Option Tidb.AlterTableSpec)) (g : Gathered)
    → Follows table specs g
unfolding gather_all
gather_all-operations table [] g = simp (append-nil)
gather_all-operations table (none ∷ specs) g = gather_all-operations table specs g
gather_all-operations table (some s ∷ specs) g =
    effect-operations table specs g (gather_all-operations table specs) (effect_of table s)

rendered_of-operations :
    (ss : List Ir.Statement) → operations (rendered_of ss) ≡ operations_of_all ss
unfolding rendered_of
rendered_of-operations [] = refl
rendered_of-operations (s ∷ []) = simp (append-nil)
rendered_of-operations (s ∷ t ∷ ss) = refl

alter_rendered-operations :
    (sql table : Text) (m : Outcome (Option Gathered))
    → ((m >>= λ g. ok (alter_rendered sql table g)) >>= λ r. ok (operations r))
      ≡ ((m >>= λ g. ok (viewed g)) >>= λ o. ok (or_raw sql o))
unfolding alter_rendered
alter_rendered-operations sql table (ok none) = refl
alter_rendered-operations sql table (ok (some g)) = ap ok (
    rendered_of-operations (flushed table g.statements g.specs)
    ∙ flushed-operations table g.statements g.specs)
alter_rendered-operations sql table (err e) = refl
alter_rendered-operations sql table panic = refl

-- What normalizeTiDBAlterTable makes of a statement holds the operations that its clauses ask for, one
-- after the other, whatever is gathered into one ALTER TABLE, split off or taken apart; if one of the
-- clauses cannot be read, it is the text alone, and it panics exactly when reading the clauses does.
pub normalize_tidb_alter_table-operations :
    (sql : Text) (t : Tidb.TableName) (specs : List (Option Tidb.AlterTableSpec))
    → (normalize_tidb_alter_table sql (record { table = some t; specs = specs }) >>= λ r.
        ok (operations r))
      ≡ (clause_operations (trim_space t.name) specs >>= λ o. ok (or_raw sql o))
unfolding normalize_tidb_alter_table alter_table_on
normalize_tidb_alter_table-operations sql t specs =
    alter_rendered-operations sql (trim_space t.name)
      (gather_all (trim_space t.name) specs gathered_nothing)
    ∙ (ap (λ (m : Outcome (Option (List Operation))). m >>= λ o. ok (or_raw sql o))
          (gather_all-operations (trim_space t.name) specs gathered_nothing)
        ∙ behind_nothing (clause_operations (trim_space t.name) specs))
  where
    behind_nothing :
        (m : Outcome (Option (List Operation)))
        → ((m >>= λ o. ok (behind [] o)) >>= λ o. ok (or_raw sql o))
          ≡ (m >>= λ o. ok (or_raw sql o))
    behind_nothing (ok none) = refl
    behind_nothing (ok (some xs)) = refl
    behind_nothing (err e) = refl
    behind_nothing panic = refl
