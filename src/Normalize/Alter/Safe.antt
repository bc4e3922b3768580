-- ===== src/Normalize/Alter/Safe.antt =====
-- The loop of normalizeTiDBAlterTable in internal/normalize/tidb_ddl.go follows no missing option.
use unique_dialect.Base.{List, [], ◌∷◌, Option, none, some, All}
use unique_dialect.Normalize.Alter.Gather.{
  Gathered, gather_changes, gather_foreign_key, gather_apart, gather_all, gathered_nothing,
  alter_table_on,
}
use unique_dialect.Normalize.Alter.{
  Effect, changes, foreign_key, apart, keep_raw, effect_of, effect_by, alter_column, alter_named,
  alter_default,
}
use unique_dialect.Outcome.{ok, Returns, >>=-Returns}
use unique_dialect.Text.{Text, trim_space}
use unique_dialect.Tidb
use unique_dialect.Tidb.{AlterTableType, ColumnDef}

abbrev pub OptionThere : Option Tidb.ColumnOption → Type 0
OptionThere none = ⊥
OptionThere (some o) = Unit

-- The options of a column are there, where the column is.
abbrev pub OptionsThere : Option ColumnDef → Type 0
OptionsThere none = Unit
OptionsThere (some c) = All OptionThere c.options

abbrev pub SpecThere : Option Tidb.AlterTableSpec → Type 0
SpecThere none = Unit
SpecThere (some s) = All OptionsThere s.new_columns

alter_default-Returns :
    (name : Text) (os : List (Option Tidb.ColumnOption))
    → All OptionThere os
    → Returns (alter_default name os)
unfolding alter_default
alter_default-Returns name [] h = tt
alter_default-Returns name (some o ∷ []) h = tt
alter_default-Returns name (none ∷ []) (h, _) = h
alter_default-Returns name (o ∷ o' ∷ os) h = tt

alter_named-Returns :
    (c : ColumnDef) (n : Option Text) → All OptionThere c.options → Returns (alter_named c n)
unfolding alter_named
alter_named-Returns c none h = tt
alter_named-Returns c (some name) h = alter_default-Returns (trim_space name) c.options h

alter_column-Returns :
    (cs : List (Option ColumnDef)) → All OptionsThere cs → Returns (alter_column cs)
unfolding alter_column
alter_column-Returns [] h = tt
alter_column-Returns (some c ∷ []) (h, _) = alter_named-Returns c c.name h
alter_column-Returns (none ∷ []) h = tt
alter_column-Returns (c ∷ d ∷ cs) h = tt

effect_by-Returns :
    (table : Text) (s : Tidb.AlterTableSpec) (t : AlterTableType)
    → All OptionsThere s.new_columns
    → Returns (effect_by table s t)
unfolding effect_by
effect_by-Returns table s AlterTableType.alter_column h = alter_column-Returns s.new_columns h
effect_by-Returns table s AlterTableType.add_columns h = tt
effect_by-Returns table s AlterTableType.add_constraint h = tt
effect_by-Returns table s AlterTableType.drop_column h = tt
effect_by-Returns table s AlterTableType.drop_primary_key h = tt
effect_by-Returns table s AlterTableType.drop_index h = tt
effect_by-Returns table s AlterTableType.drop_foreign_key h = tt
effect_by-Returns table s AlterTableType.modify_column h = tt
effect_by-Returns table s AlterTableType.change_column h = tt
effect_by-Returns table s AlterTableType.other_type h = tt

gather_all-Returns :
    (table : Text) (specs : List (Option Tidb.AlterTableSpec)) (g : Gathered)
    → All SpecThere specs
    → Returns (gather_all table specs g)
unfolding gather_all effect_of
gather_all-Returns table [] g h = tt
gather_all-Returns table (none ∷ specs) g (_, h) = gather_all-Returns table specs g h
gather_all-Returns table (some s ∷ specs) g (h, hs) =
    >>=-Returns (effect_by table s s.tp) _ (effect_by-Returns table s s.tp h)
      λ effect _. after effect (λ g'. gather_all-Returns table specs g' hs)
  where
    after :
        (effect : Effect)
        → ((g' : Gathered) → Returns (gather_all table specs g'))
        → Returns {A = Option Gathered} (elim effect [
          | changes added ↦ gather_all table specs (gather_changes added g)
          | foreign_key added ↦ gather_all table specs (gather_foreign_key table added g)
          | apart stmt ↦ gather_all table specs (gather_apart table stmt g)
          | keep_raw ↦ ok none
        ])
    after (changes added) ih = ih _
    after (foreign_key added) ih = ih _
    after (apart stmt) ih = ih _
    after keep_raw ih = tt

pub alter_table_on-Returns :
    (sql : Text) (specs : List (Option Tidb.AlterTableSpec)) (t : Option Tidb.TableName)
    → All SpecThere specs
    → Returns (alter_table_on sql specs t)
unfolding alter_table_on
alter_table_on-Returns sql specs none h = tt
alter_table_on-Returns sql specs (some t) h =
    >>=-Returns (gather_all (trim_space t.name) specs gathered_nothing) _
      (gather_all-Returns (trim_space t.name) specs gathered_nothing h) λ g _. tt
