-- ===== src/Dialect.antt =====
-- The dialect names of types.go, which the code compares as strings: the four names, and any
-- other string.
use unique_dialect.Base.{Bool, true, false}
use unique_dialect.Text.{Text, codes, text_eq}

pub data Dialect : Type 0 where
  mysql postgres sqlite oracle : Dialect
  -- A string that is none of the four.
  other : Text → Dialect

-- `from == to`.
unfoldable pub same_dialect : Dialect → Dialect → Bool
unfolding text_eq
same_dialect mysql mysql = true
same_dialect postgres postgres = true
same_dialect sqlite sqlite = true
same_dialect oracle oracle = true
same_dialect (other a) (other b) = text_eq a b
same_dialect _ _ = false

unfoldable pub dialect_text : Dialect → Text
unfolding codes
dialect_text mysql = codes "mysql"
dialect_text postgres = codes "postgres"
dialect_text sqlite = codes "sqlite"
dialect_text oracle = codes "oracle"
dialect_text (other d) = d
