-- ===== src/Options/Ambiguous.antt =====
-- PostgreSQL's source names do not tell a password from the options behind it.
use unique_dialect.Base.{List, [], ◌∷◌, ◌++◌, map, ◌≡◌, ◌≢◌, refl, sym, ap, ◌∙◌, append_assoc}
use unique_dialect.Options.{
  ConnectionOptions, sorted_keys, parameters_of, part, parameter_part, postgres_parts, postgres_dsn,
  text_or, port_or,
}
use unique_dialect.Text.Decimal.{itoa}
use unique_dialect.Text.{Text, codes, join, join_after}

abbrev blank : Text
blank = b' ' ∷ []

join_after-append :
    (s p : Text) (ps : List Text) → join_after blank (s ++ p) ps ≡ s ++ join_after blank p ps
unfolding join_after
join_after-append s p [] = refl
join_after-append s p (q ∷ ps) = append_assoc s p (blank ++ join_after blank q ps)

-- Two neighbours are written like one part with the separator in it.
join_after-merge :
    (first : Text) (before : List Text) (a b : Text) (behind : List Text)
    → join_after blank first (before ++ (a ∷ b ∷ behind))
      ≡ join_after blank first (before ++ ((a ++ (blank ++ b)) ∷ behind))
unfolding join_after
join_after-merge first [] a b behind =
    ap (λ t. first ++ (blank ++ t))
      (sym (
        join_after-append a (blank ++ b) behind
        ∙ ap (λ t. a ++ t) (join_after-append blank b behind)))
join_after-merge first (x ∷ before) a b behind =
    ap (λ t. first ++ (blank ++ t)) (join_after-merge x before a b behind)

three_parts :
    (u : List Text) (a b : Text) (ps : List Text)
    → u ++ (a ∷ []) ++ (b ∷ []) ++ ps ≡ u ++ (a ∷ b ∷ ps)
three_parts u a b ps = append_assoc (u ++ (a ∷ [])) (b ∷ []) ps ∙ append_assoc u (a ∷ []) (b ∷ ps)

two_parts : (u : List Text) (a : Text) (ps : List Text) → u ++ (a ∷ []) ++ [] ++ ps ≡ u ++ (a ∷ ps)
two_parts u a ps = append_assoc (u ++ (a ∷ [])) [] ps ∙ append_assoc u (a ∷ []) ps

abbrev pub with_secret : ConnectionOptions → Text → Text → ConnectionOptions
with_secret c password database = record c { password = password; database = database }

-- Two different options have one source name: with a password and a database that are not empty, the
-- text ` dbname=` and the database at the end of the password do what the database does as an option.
pub postgres_dsn-ambiguous :
    (c : ConnectionOptions) (password database : Text)
    → password ≢ []
    → database ≢ []
    → postgres_dsn (with_secret c (password ++ (codes " dbname=" ++ database)) [])
      ≡ postgres_dsn (with_secret c password database)
unfolding postgres_dsn postgres_parts join codes
postgres_dsn-ambiguous c [] d hp hd = absurd (hp refl)
postgres_dsn-ambiguous c (x ∷ p) [] hp hd = absurd (hd refl)
postgres_dsn-ambiguous c (x ∷ p) (y ∷ d) hp hd =
    let ps = parameters_of c in
    let parameters = map (parameter_part ps) (sorted_keys ps) in
    let user = part (codes "user=") c.username in
    let host = codes "host=" ++ text_or c.host (codes "127.0.0.1") in
    let port = codes "port=" ++ itoa (port_or c.port 5432) in
    let secret = codes "password=" ++ (x ∷ p) in
    let name = codes "dbname=" ++ (y ∷ d) in
    ap (λ parts. join_after blank host (port ∷ parts))
      (two_parts user (codes "password=" ++ (x ∷ p ++ (codes " dbname=" ++ (y ∷ d)))) parameters)
    ∙ ap (λ t. join_after blank host (port ∷ (user ++ (t ∷ parameters))))
        (sym (append_assoc (codes "password=") (x ∷ p) (blank ++ name)))
    ∙ sym (join_after-merge host (port ∷ user) secret name parameters)
    ∙ ap (λ parts. join_after blank host (port ∷ parts))
        (sym (three_parts user secret name parameters))
