-- ===== src/Render/Dml/Limit.antt =====
-- renderLimit against the parsers of the LIMIT clause.
mod Numerals
use unique_dialect.Base.{
  ℕ, zero, suc, ◌+◌, ◌-◌, ◌≤◌, ◌<◌, Bool, true, false, List, [], ◌∷◌, ◌++◌, Option, none, some, ◌≡◌,
  ◌≢◌, refl, sym, ap, ◌∙◌, arith, choose, if◌then◌else◌, length, length-append, take, drop, All,
  map, append-nil, append_assoc, ◌==◌,
}
use unique_dialect.Dialect.{mysql, postgres, sqlite}
use unique_dialect.Normalize.{limit_of}
use unique_dialect.Outcome.{Outcome, ok, err, panic, ◌>>=◌}
use unique_dialect.Render.Dml.{render_limit}
use unique_dialect.Syntax
use unique_dialect.Syntax.{LimitClause}
use unique_dialect.Syntax.Clauses.Safe.{slice_within}
use unique_dialect.Syntax.Mysql
use unique_dialect.Syntax.Postgres
use unique_dialect.Syntax.Scan.{initial, step, split_csv_from, split_top_level_csv}
use unique_dialect.Text.Decimal.Digits.{format_nat-IsDigit, format_nat-length}
use unique_dialect.Text.Decimal.RoundTrip.{atoi-itoa}
use unique_dialect.Text.Decimal.{ℤ, pos, negsuc, itoa, atoi, IsInt64, format_nat}
use unique_dialect.Text.Trim.{HeadKept, trim_left_keep, trim_right_keep}
use unique_dialect.Text.{
  Text, codes, is_space, trim_left, trim_by, trim_space, to_upper, upper_byte, has_prefix, slice,
}
use unique_dialect.Render.Dml.Limit.Numerals.{
  IsNumeral, numeral-kept, itoa-IsNumeral, itoa-length, trim_space-numeral, trim_space-between,
  split_csv-numeral, split_csv-last,
}

-- The numbers of a clause are those of Go's int.
abbrev pub IsInt64Limit : LimitClause → Type 0
IsInt64Limit l = choose l.offset Unit IsInt64 × IsInt64 l.count

trim_space-behind_space : (s : Text) → trim_space (b' ' ∷ s) ≡ trim_space s
trim_space-behind_space s = unfold trim_space trim_by trim_left is_space in refl

trim_space-itoa : (z : ℤ) → trim_space (itoa z) ≡ itoa z
trim_space-itoa z = trim_space-numeral (itoa z) (itoa-IsNumeral z)

split_csv-behind_space : (c : ℤ) → split_csv_from initial [] (b' ' ∷ itoa c) ≡ itoa c ∷ []
split_csv-behind_space c =
    to_space
    ∙ split_csv-last (b' ' ∷ []) (itoa c) (itoa-IsNumeral c)
    ∙ ap (λ x. x ∷ []) (trim_space-behind_space (itoa c) ∙ trim_space-itoa c)
  where
    to_space :
        split_csv_from initial [] (b' ' ∷ itoa c) ≡ split_csv_from initial (b' ' ∷ []) (itoa c)
    to_space = unfold split_csv_from in unfold step in refl

-- The two numbers of a clause, as the list splitter reads them.
split-numbers :
    (o c : ℤ)
    → split_top_level_csv (trim_space (itoa o ++ (codes ", " ++ itoa c))) ≡ itoa o ∷ itoa c ∷ []
unfolding split_top_level_csv codes
split-numbers o c =
    ap split_top_level_csv (
      trim_space-between (itoa o) (codes ", ") (itoa c) (itoa-IsNumeral o) (itoa-length o)
        (itoa-IsNumeral c) (itoa-length c))
    ∙ split_csv-numeral [] (itoa o) (b' ' ∷ itoa c) (itoa-IsNumeral o)
    ∙ ap (λ x. x ∷ split_csv_from initial [] (b' ' ∷ itoa c)) (trim_space-itoa o)
    ∙ ap (◌∷◌ (itoa o)) (split_csv-behind_space c)

split-number : (c : ℤ) → split_top_level_csv (trim_space (itoa c)) ≡ itoa c ∷ []
unfolding split_top_level_csv
split-number c =
    ap split_top_level_csv (trim_space-itoa c)
    ∙ split_csv-last [] (itoa c) (itoa-IsNumeral c)
    ∙ ap (λ x. x ∷ []) (trim_space-itoa c)

abbrev clause : Option ℤ → ℤ → LimitClause
clause o c = record { offset = o; count = c }

read : (z : ℤ) → IsInt64 z → atoi (trim_space (itoa z)) ≡ ok z
read z h = ap atoi (trim_space-itoa z) ∙ atoi-itoa z h

mysql_clause :
    (o : Option ℤ) (c : ℤ)
    → IsInt64Limit (clause o c)
    → Mysql.parse_limit (drop 7 (render_limit (limit_of (clause o c)) mysql)) ≡ ok (clause o c)
unfolding Mysql.parse_limit Mysql.parse_limit_parts render_limit limit_of
mysql_clause none c (_, h) = rw (split-number c, read c h) refl
mysql_clause (some o) c (ho, h) = rw (split-numbers o c, read o ho, read c h) refl

sqlite_clause :
    (o : Option ℤ) (c : ℤ)
    → IsInt64Limit (clause o c)
    → Mysql.parse_limit (drop 7 (render_limit (limit_of (clause o c)) sqlite)) ≡ ok (clause o c)
unfolding render_limit
sqlite_clause none c h = mysql_clause none c h
sqlite_clause (some o) c h = mysql_clause (some o) c h

to_upper-numeral : (s t : Text) → All IsNumeral s → to_upper (s ++ t) ≡ s ++ to_upper t
to_upper-numeral [] t h = refl
to_upper-numeral (c ∷ s) t ((l, u), h) = rw (same c l u) (ap (◌∷◌ c) (to_upper-numeral s t h))
  where
    same : (c : ℕ) → 45 ≤ c → c ≤ 57 → upper_byte c ≡ c
    same c l u = unfold upper_byte in ground arith

abbrev offset_keyword : Text
offset_keyword = b' ' ∷ b'O' ∷ b'F' ∷ b'F' ∷ b'S' ∷ b'E' ∷ b'T' ∷ b' ' ∷ []

index_of-numeral :
    (s t : Text)
    → All IsNumeral s
    → Postgres.index_of offset_keyword (s ++ (offset_keyword ++ t)) ≡ some (length s)
unfolding Postgres.index_of has_prefix
index_of-numeral [] t h = refl
index_of-numeral (c ∷ s) t ((l, u), h) =
    rw (no_space c l, index_of-numeral s t h) (ap some (omega arith))
  where
    no_space : (c : ℕ) → 45 ≤ c → (c == b' ') ≡ false
    no_space c l = ground arith

index_of-alone : (s : Text) → All IsNumeral s → Postgres.index_of offset_keyword s ≡ none
unfolding Postgres.index_of has_prefix
index_of-alone [] h = refl
index_of-alone (c ∷ s) ((l, u), h) = rw (no_space c l, index_of-alone s h) refl
  where
    no_space : (c : ℕ) → 45 ≤ c → (c == b' ') ≡ false
    no_space c l = ground arith

take-length : (s t : Text) → take (length s) (s ++ t) ≡ s
take-length [] t = refl
take-length (c ∷ s) t = ap (◌∷◌ c) (take-length s t)

take-all : (s : Text) → take (length s) s ≡ s
take-all [] = refl
take-all (c ∷ s) = ap (◌∷◌ c) (take-all s)

drop-length : (s t : Text) → drop (length s) (s ++ t) ≡ t
drop-length [] t = refl
drop-length (c ∷ s) t = drop-length s t

slice-front : (s t : Text) → slice (s ++ t) 0 (length s) ≡ ok s
slice-front s t =
    let size : length s - 0 ≡ length s = omega arith in
    slice_within (s ++ t) 0 (length s) (omega arith) (omega (arith, length-append s t))
    ∙ ap ok (rw size (take-length s t))

slice-back : (s t : Text) → slice (s ++ t) (length s) (length (s ++ t)) ≡ ok t
slice-back s t =
    let size : length (s ++ t) - length s ≡ length t = omega (arith, length-append s t) in
    slice_within (s ++ t) (length s) (length (s ++ t)) (omega (arith, length-append s t))
      (omega arith)
    ∙ ap ok (rw (size, drop-length s t) (take-all t))

-- The two numbers of a clause, as the parser of PostgreSQL slices them.
slice-offset :
    (c o : Text)
    → slice (c ++ (offset_keyword ++ o)) (length c + 8) (length (c ++ (offset_keyword ++ o))) ≡ ok o
slice-offset c o =
    let size : length c + 8 ≡ length (c ++ offset_keyword) =
      omega (arith, length-append c offset_keyword) in
    rw (size, sym (append_assoc c offset_keyword o)) (slice-back (c ++ offset_keyword) o)

found-offset :
    (c o : ℤ)
    → Postgres.index_of offset_keyword
        (to_upper (trim_space (itoa c ++ (offset_keyword ++ itoa o))))
      ≡ some (length (itoa c))
unfolding upper_byte
found-offset c o =
    ap (λ x. Postgres.index_of offset_keyword (to_upper x))
      (trim_space-between (itoa c) offset_keyword (itoa o) (itoa-IsNumeral c) (itoa-length c)
        (itoa-IsNumeral o) (itoa-length o))
    ∙ ap (Postgres.index_of offset_keyword)
        (to_upper-numeral (itoa c) (offset_keyword ++ itoa o) (itoa-IsNumeral c))
    ∙ index_of-numeral (itoa c) (to_upper (itoa o)) (itoa-IsNumeral c)

not_found-offset :
    (c : ℤ) → Postgres.index_of offset_keyword (to_upper (trim_space (itoa c))) ≡ none
not_found-offset c =
    ap (λ x. Postgres.index_of offset_keyword (to_upper x)) (trim_space-itoa c)
    ∙ ap (λ x. Postgres.index_of offset_keyword (to_upper x)) (sym (append-nil (itoa c)))
    ∙ ap (Postgres.index_of offset_keyword) (to_upper-numeral (itoa c) [] (itoa-IsNumeral c))
    ∙ ap (Postgres.index_of offset_keyword) (append-nil (itoa c))
    ∙ index_of-alone (itoa c) (itoa-IsNumeral c)

postgres_clause :
    (o : Option ℤ) (c : ℤ)
    → IsInt64Limit (clause o c)
    → Postgres.parse_limit (drop 7 (render_limit (limit_of (clause o c)) postgres))
      ≡ ok (clause o c)
unfolding Postgres.parse_limit render_limit limit_of codes
postgres_clause none c (_, h) = rw (not_found-offset c, read c h) refl
postgres_clause (some o) c (ho, h) =
    rw
      (
        found-offset c o,
        slice-front (itoa c) (offset_keyword ++ itoa o),
        read c h,
        slice-offset (itoa c) (itoa o),
        read o ho,
      )
      refl

-- A limit with or without an offset, on numbers of 64 bits, is read back by the parser of the
-- dialect that it was written for: MySQL's `LIMIT offset, count`, which SQLite shares, and
-- PostgreSQL's `LIMIT count OFFSET offset`.
pub parse_limit-render_limit :
    (l : LimitClause)
    → IsInt64Limit l
    → (Mysql.parse_limit (drop 7 (render_limit (limit_of l) mysql)) ≡ ok l)
      × (Mysql.parse_limit (drop 7 (render_limit (limit_of l) sqlite)) ≡ ok l)
      × (Postgres.parse_limit (drop 7 (render_limit (limit_of l) postgres)) ≡ ok l)
parse_limit-render_limit l h = (
  mysql_clause l.offset l.count h,
  sqlite_clause l.offset l.count h,
  postgres_clause l.offset l.count h,
)
