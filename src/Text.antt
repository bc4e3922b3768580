-- ===== src/Text.antt =====
-- The functions of Go's packages strings and strconv that the code calls, on texts of ASCII bytes.
pub mod Base64
pub mod Trim
pub mod Parts
pub mod Decimal
pub mod Pattern
use Prim.Native.Char.{code}
use unique_dialect.Base.{
  ℕ, suc, zero, ◌+◌, ◌-◌, Bool, true, false, not, ◌&&◌, ◌||◌, List, [], ◌∷◌, ◌++◌, map, Option,
  none, some, String, leb, ltb, ◌==◌, if◌then◌else◌, choose, length, take, drop, ◌≡◌,
}
use unique_dialect.Outcome.{Outcome, ok, panic}

-- A Go string, byte for byte.
abbrev pub Text : Type 0
Text = List ℕ

-- The bytes of an ASCII literal.
unfoldable pub codes : String → Text
codes String.[] = []
codes (String.◌∷◌ c s) = code c ∷ codes s

-- The bytes of a text are ASCII characters: strings.ToUpper keeps its length.
abbrev pub is_ascii : Text → Bool
is_ascii [] = true
is_ascii (c ∷ s) = ltb c 128 && is_ascii s

abbrev pub IsAscii : Text → Type 0
IsAscii s = is_ascii s ≡ true

-- The ASCII part of unicode.IsSpace.
unfoldable pub is_space : ℕ → Bool
is_space c = (leb 9 c && leb c 13) || c == 32

unfoldable pub upper_byte : ℕ → ℕ
upper_byte c = if leb b'a' c && leb c b'z' then c - 32 else c

unfoldable pub lower_byte : ℕ → ℕ
lower_byte c = if leb b'A' c && leb c b'Z' then c + 32 else c

-- strings.ToUpper and strings.ToLower.
abbrev pub to_upper : Text → Text
to_upper = map upper_byte

abbrev pub to_lower : Text → Text
to_lower = map lower_byte

unfoldable pub text_eq : Text → Text → Bool
text_eq [] [] = true
text_eq (a ∷ s) (b ∷ t) = a == b && text_eq s t
text_eq _ _ = false

-- strings.EqualFold.
abbrev pub equal_fold : Text → Text → Bool
equal_fold s t = text_eq (to_lower s) (to_lower t)

abbrev pub is_empty : Text → Bool
is_empty [] = true
is_empty (c ∷ s) = false

-- strings.HasPrefix.
unfoldable pub has_prefix : Text → Text → Bool
has_prefix s [] = true
has_prefix [] (b ∷ p) = false
has_prefix (a ∷ s) (b ∷ p) = a == b && has_prefix s p

-- The text cut off by a byte test from the left, and from the right.
unfoldable pub trim_left : (ℕ → Bool) → Text → Text
trim_left p [] = []
trim_left p (c ∷ s) = if p c then trim_left p s else c ∷ s

-- What stays of `c ∷ s` when `r` stays of `s`.
unfoldable pub keep_right : (ℕ → Bool) → ℕ → Text → Text
keep_right p c [] = if p c then [] else c ∷ []
keep_right p c (d ∷ r) = c ∷ d ∷ r

unfoldable pub trim_right : (ℕ → Bool) → Text → Text
unfolding keep_right
trim_right p [] = []
trim_right p (c ∷ s) = keep_right p c (trim_right p s)

-- strings.TrimFunc.
unfoldable pub trim_by : (ℕ → Bool) → Text → Text
unfolding trim_left trim_right
trim_by p s = trim_right p (trim_left p s)

-- strings.TrimSpace.
unfoldable pub trim_space : Text → Text
unfolding is_space trim_by
trim_space s = trim_by is_space s

-- strings.TrimPrefix and strings.TrimSuffix.
unfoldable pub trim_prefix : Text → Text → Text
unfolding has_prefix
trim_prefix s p = if has_prefix s p then drop (length p) s else s

unfoldable pub trim_suffix : Text → Text → Text
unfolding text_eq
trim_suffix s p =
    let n = length s - length p in
    if leb (length p) (length s) && text_eq (drop n s) p then take n s else s

-- strings.IndexByte.
unfoldable pub index_byte : ℕ → Text → Option ℕ
index_byte b [] = none
index_byte b (c ∷ s) = if c == b then some 0 else choose (index_byte b s) none λ i. some (i + 1)

abbrev pub onto_first : ℕ → List Text → List Text
onto_first c [] = (c ∷ []) ∷ []
onto_first c (p ∷ ps) = (c ∷ p) ∷ ps

-- strings.Split with a separator of one byte.
unfoldable pub split : ℕ → Text → List Text
split sep [] = [] ∷ []
split sep (c ∷ s) = if c == sep then [] ∷ split sep s else onto_first c (split sep s)

-- strings.Join.
unfoldable pub join_after : Text → Text → List Text → Text
join_after sep p [] = p
join_after sep p (q ∷ ps) = p ++ (sep ++ join_after sep q ps)

unfoldable pub join : Text → List Text → Text
unfolding join_after
join sep [] = []
join sep (p ∷ ps) = join_after sep p ps

-- strings.ReplaceAll for a non-empty `old`; after a match the next `skip` bytes are passed over.
unfoldable pub replace_from : ℕ → Text → Text → Text → Text
unfolding has_prefix
replace_from skip old new [] = []
replace_from (suc skip) old new (c ∷ s) = replace_from skip old new s
replace_from zero old new (c ∷ s) =
    let hit = new ++ replace_from (length old - 1) old new s in
    let miss = c ∷ replace_from 0 old new s in if has_prefix (c ∷ s) old then hit else miss

unfoldable pub replace_all : Text → Text → Text → Text
unfolding replace_from
replace_all s old new = replace_from 0 old new s

-- `s[lo:hi]`, which panics out of range.
unfoldable pub slice : Text → ℕ → ℕ → Outcome Text
slice s lo hi = if leb lo hi && leb hi (length s) then ok (take (hi - lo) (drop lo s)) else panic

abbrev nonempty : Text → List Text → List Text
nonempty [] ps = ps
nonempty (c ∷ s) ps = (c ∷ s) ∷ ps

-- strings.Fields; `cur` is the field that has begun.
unfoldable pub fields_from : Text → Text → List Text
unfolding is_space
fields_from cur [] = nonempty cur []
fields_from cur (c ∷ s) =
    let next = nonempty cur (fields_from [] s) in
    let more = fields_from (cur ++ c ∷ []) s in if is_space c then next else more

unfoldable pub fields : Text → List Text
unfolding fields_from
fields s = fields_from [] s

-- `s[lo:]`, which panics out of range.
unfoldable pub slice_from : Text → ℕ → Outcome Text
unfolding slice
slice_from s lo = slice s lo (length s)
