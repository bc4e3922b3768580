-- ===== src/Bootstrap/Names.antt =====
-- The names of the artifacts of bootstrap.go.
use unique_dialect.Base.{
  List, [], ◌∷◌, ◌++◌, map, ◌≡◌, ◌≢◌, ◌<◌, ap, append_assoc, length, length-append, ◌+◌, arith,
}
use unique_dialect.Bootstrap.{
  BootstrapArtifact, function_name, function_sql, trigger_name, build_on_update_artifacts,
}
use unique_dialect.Text.{Text, codes, join, join_after}

abbrev pub names : List BootstrapArtifact → List Text
names found = map (λ a. a.name) found

abbrev pub texts : List BootstrapArtifact → List Text
texts found = map (λ a. a.sql) found

length-function_sql :
    (name column : Text) → length (function_sql name column) ≡ length name + length column + 128
unfolding function_sql codes join join_after
length-function_sql name column = simp (length-append) (omega arith)

function_name-shared :
    (x y z : Text) → function_name (x ++ codes "_" ++ y) z ≡ function_name x (y ++ codes "_" ++ z)
unfolding function_name codes
function_name-shared x y z = simp (append_assoc)

longer-function_sql :
    (n m c d : Text) → n ≡ m → length c < length d → function_sql n c ≢ function_sql m d
longer-function_sql n m c d same h e =
    omega (arith, ap length same, ap length e, length-function_sql n c, length-function_sql m d)

behind-longer : (y z : Text) → length z < length (y ++ codes "_" ++ z)
unfolding codes
behind-longer y z = omega (arith, length-append (y ++ codes "_") z, length-append y (codes "_"))

abbrev first_text : List Text → Text
first_text [] = []
first_text (t ∷ ts) = t

-- The artifacts of a column `z` of a table `x_y` have the names of those of a column `y_z` of a
-- table `x`, for any `x`, `y` and `z`, but not their SQL.
pub build_on_update_artifacts-ambiguous :
    (x y z : Text)
    → (names (build_on_update_artifacts (x ++ codes "_" ++ y) (z ∷ []))
        ≡ names (build_on_update_artifacts x ((y ++ codes "_" ++ z) ∷ [])))
      × (texts (build_on_update_artifacts (x ++ codes "_" ++ y) (z ∷ []))
          ≢ texts (build_on_update_artifacts x ((y ++ codes "_" ++ z) ∷ [])))
unfolding build_on_update_artifacts function_name trigger_name codes
build_on_update_artifacts-ambiguous x y z = (simp (append_assoc), λ e. differ e)
  where
    differ :
        texts (build_on_update_artifacts (x ++ codes "_" ++ y) (z ∷ []))
        ≢ texts (build_on_update_artifacts x ((y ++ codes "_" ++ z) ∷ []))
    differ e =
        longer-function_sql _ _ z (y ++ codes "_" ++ z) (function_name-shared x y z)
          (behind-longer y z) (ap first_text e)
