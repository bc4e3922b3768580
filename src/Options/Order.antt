-- ===== src/Options/Order.antt =====
-- The source names do not depend on the order in which a map of parameters gives its entries.
use unique_dialect.Base.{
  Bool, true, false, List, [], ◌∷◌, ◌++◌, some, map, ◌≡◌, refl, sym, ap, ◌∙◌, arith, if◌then◌else◌,
}
use unique_dialect.Options.{
  ConnectionOptions, DriverName, driver_mysql, driver_postgres, driver_sqlite, driver_oracle,
  driver_other, is_empty_map, mysql_query, entry, text_le, insert_text, sorted_keys, driver_dsn,
  encoded_parameters, parameter_part, mysql_dsn, postgres_parts, postgres_dsn, query_escape,
}
use unique_dialect.Outcome.{ok}
use unique_dialect.Text.{Text, codes, text_eq, join}
use unique_dialect.Translator.Memo.{text_eq-eq, text_eq_refl}

text_le_total : (s t : Text) → text_le s t ≡ false → text_le t s ≡ true
unfolding text_le
text_le_total [] t h = cc
text_le_total (a ∷ s) [] h = refl
text_le_total (a ∷ s) (b ∷ t) h = ground (arith, text_le_total s t)

text_le_antisym : (s t : Text) → text_le s t ≡ true → text_le t s ≡ true → s ≡ t
unfolding text_le
text_le_antisym [] [] h k = refl
text_le_antisym [] (b ∷ t) h k = cc
text_le_antisym (a ∷ s) [] h k = cc
text_le_antisym (a ∷ s) (b ∷ t) h k = ground (arith, text_le_antisym s t)

text_le_trans : (s t u : Text) → text_le s t ≡ true → text_le t u ≡ true → text_le s u ≡ true
unfolding text_le
text_le_trans [] t u h k = refl
text_le_trans (a ∷ s) [] u h k = cc
text_le_trans (a ∷ s) (b ∷ t) [] h k = cc
text_le_trans (a ∷ s) (b ∷ t) (c ∷ u) h k = ground (arith, text_le_trans s t u)

-- Two keys can be inserted in either order.
insert_text_comm :
    (a b : Text) (js : List Text)
    → insert_text a (insert_text b js) ≡ insert_text b (insert_text a js)
unfolding insert_text
insert_text_comm a b [] = ground (arith, text_le_total a b, text_le_antisym a b)
insert_text_comm a b (j ∷ js) = ground (
  arith,
  text_le_total a b,
  text_le_antisym a b,
  text_le_trans a b j,
  text_le_trans b a j,
  insert_text_comm a b js,
)

-- The entries of one map in two orders: no two entries have one key.
pub data Reordered : List (Text × Text) → List (Text × Text) → Type 0 where
  kept : {ps : List (Text × Text)} → Reordered ps ps
  behind :
      {p : Text × Text} {ps qs : List (Text × Text)} → Reordered ps qs → Reordered (p ∷ ps) (p ∷ qs)
  swapped :
      {p q : Text × Text} {ps : List (Text × Text)}
      → text_eq p.0 q.0 ≡ false
      → Reordered (p ∷ q ∷ ps) (q ∷ p ∷ ps)
  in_turn : {ps qs rs : List (Text × Text)} → Reordered ps qs → Reordered qs rs → Reordered ps rs

sorted_keys-Reordered :
    (ps qs : List (Text × Text)) → Reordered ps qs → sorted_keys ps ≡ sorted_keys qs
unfolding sorted_keys
sorted_keys-Reordered ps qs kept = refl
sorted_keys-Reordered (p ∷ ps) (_ ∷ qs) (behind r) =
    ap (insert_text p.0) (sorted_keys-Reordered ps qs r)
sorted_keys-Reordered (p ∷ q ∷ ps) _ (swapped ne) = insert_text_comm p.0 q.0 (sorted_keys ps)
sorted_keys-Reordered ps rs (in_turn {qs = qs} r r') =
    sorted_keys-Reordered ps qs r ∙ sorted_keys-Reordered qs rs r'

entry-Reordered :
    (k : Text) (ps qs : List (Text × Text)) → Reordered ps qs → entry k ps ≡ entry k qs
unfolding entry
entry-Reordered k ps qs kept = refl
entry-Reordered k (p ∷ ps) (_ ∷ qs) (behind r) =
    ap (λ e. if text_eq p.0 k then p.1 else e) (entry-Reordered k ps qs r)
entry-Reordered k (p ∷ q ∷ ps) _ (swapped ne) = one_hit (text_eq p.0 k) (text_eq q.0 k) refl refl
  where
    true_is_not : true ≡ false → ⊥
    true_is_not e = cc

    differ : p.0 ≡ q.0 → ⊥
    differ same = true_is_not (sym (text_eq_refl p.0) ∙ ap (text_eq p.0) same ∙ ne)

    one_hit :
        (a b : Bool)
        → text_eq p.0 k ≡ a
        → text_eq q.0 k ≡ b
        → (if a then p.1 else (if b then q.1 else entry k ps))
          ≡ (if b then q.1 else (if a then p.1 else entry k ps))
    one_hit true true e f =
        let same = text_eq-eq p.0 k e ∙ sym (text_eq-eq q.0 k f) in absurd (differ same)
    one_hit true false e f = refl
    one_hit false true e f = refl
    one_hit false false e f = refl
entry-Reordered k ps rs (in_turn {qs = qs} r r') =
    entry-Reordered k ps qs r ∙ entry-Reordered k qs rs r'

is_empty_map-Reordered :
    (ps qs : List (Text × Text)) → Reordered ps qs → is_empty_map ps ≡ is_empty_map qs
is_empty_map-Reordered ps qs kept = refl
is_empty_map-Reordered (p ∷ ps) (_ ∷ qs) (behind r) = refl
is_empty_map-Reordered (p ∷ q ∷ ps) _ (swapped ne) = refl
is_empty_map-Reordered ps rs (in_turn {qs = qs} r r') =
    is_empty_map-Reordered ps qs r ∙ is_empty_map-Reordered qs rs r'

encoded_parameters-Reordered :
    (ps qs : List (Text × Text)) → Reordered ps qs → encoded_parameters ps ≡ encoded_parameters qs
unfolding encoded_parameters
encoded_parameters-Reordered ps qs r = λ i. join (codes "&") (
    map (λ k. query_escape k ++ codes "=" ++ query_escape (entry-Reordered k ps qs r i))
      (sorted_keys-Reordered ps qs r i))

parameter_part-Reordered :
    (k : Text) (ps qs : List (Text × Text))
    → Reordered ps qs
    → parameter_part ps k ≡ parameter_part qs k
unfolding parameter_part
parameter_part-Reordered k ps qs r = rw (entry-Reordered k ps qs r) refl

abbrev pub with_parameters : ConnectionOptions → List (Text × Text) → ConnectionOptions
with_parameters c ps = record c { parameters = some ps }

mysql_query-Reordered :
    (ps qs : List (Text × Text)) → Reordered ps qs → mysql_query ps ≡ mysql_query qs
unfolding mysql_query
mysql_query-Reordered ps qs r = λ i.
    if is_empty_map-Reordered ps qs r i
    then []
    else codes "?" ++ encoded_parameters-Reordered ps qs r i

mysql_dsn-Reordered :
    (c : ConnectionOptions) (ps qs : List (Text × Text))
    → Reordered ps qs
    → mysql_dsn (with_parameters c ps) ≡ mysql_dsn (with_parameters c qs)
unfolding mysql_dsn
mysql_dsn-Reordered c ps qs r = rw (mysql_query-Reordered ps qs r) refl

postgres_parts-Reordered :
    (c : ConnectionOptions) (ps qs : List (Text × Text))
    → Reordered ps qs
    → postgres_parts (with_parameters c ps) ≡ postgres_parts (with_parameters c qs)
unfolding postgres_parts
postgres_parts-Reordered c ps qs r = rw (parts ps qs r) refl
  where
    parts :
        (ps qs : List (Text × Text))
        → Reordered ps qs
        → map (parameter_part ps) (sorted_keys ps) ≡ map (parameter_part qs) (sorted_keys qs)
    parts ps qs r =
        λ i. map (λ k. parameter_part-Reordered k ps qs r i) (sorted_keys-Reordered ps qs r i)

-- For every driver the source name of a connection, and whether there is one, is the same whatever order
-- the map of its parameters is gone through in.
pub driver_dsn-Reordered :
    (driver : DriverName) (c : ConnectionOptions) (ps qs : List (Text × Text))
    → Reordered ps qs
    → driver_dsn driver (with_parameters c ps) ≡ driver_dsn driver (with_parameters c qs)
unfolding driver_dsn postgres_dsn
driver_dsn-Reordered driver_mysql c ps qs r = ap ok (mysql_dsn-Reordered c ps qs r)
driver_dsn-Reordered driver_postgres c ps qs r =
    ap (λ t. ok (join (codes " ") t)) (postgres_parts-Reordered c ps qs r)
driver_dsn-Reordered driver_sqlite c ps qs r = refl
driver_dsn-Reordered driver_oracle c ps qs r = refl
driver_dsn-Reordered (driver_other d) c ps qs r = refl
