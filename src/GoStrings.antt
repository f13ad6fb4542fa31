-- ===== src/GoStrings.antt =====
-- The functions of Go's `strings` package that the program calls, on texts as lists of characters.
use Prim.Native.Char.{Char, code}
use fngo.Prelude.{
  ℕ, ◌==◌, nat_eq, String, Bool, true, false, ◌&&◌, ◌||◌, Option, none, some, List, [], ◌∷◌, leb,
  ltb, ◌+◌, ◌-◌, ◌*◌, ◌^◌, if◌then◌else◌,
}
use fngo.Prelude.Int.{ℤ, pos, ◌-ℤ◌}

-- unicode.IsSpace
abbrev pub is_space : ℕ → Bool
is_space c =
    leb 9 c && leb c 13
    || c == 32
    || c == 0x85
    || c == 0xa0
    || c == 0x1680
    || leb 0x2000 c && leb c 0x200a
    || c == 0x2028
    || c == 0x2029
    || c == 0x202f
    || c == 0x205f
    || c == 0x3000

-- s without its leading characters that satisfy `p`
unfoldable pub trim_left : (ℕ → Bool) → String → String
trim_left p String.[] = String.[]
trim_left p (String.◌∷◌ c s) =
    let rest = trim_left p s in if p (code c) then rest else String.◌∷◌ c s

abbrev pub cons_unless : (ℕ → Bool) → Char → String → String
cons_unless p c String.[] = if p (code c) then String.[] else String.◌∷◌ c String.[]
cons_unless p c (String.◌∷◌ d s) = String.◌∷◌ c (String.◌∷◌ d s)

-- s without its trailing characters that satisfy `p`
unfoldable pub trim_right : (ℕ → Bool) → String → String
trim_right p String.[] = String.[]
trim_right p (String.◌∷◌ c s) = cons_unless p c (trim_right p s)

-- strings.TrimSpace(s)
unfoldable pub trim_space : String → String
unfolding trim_left trim_right
trim_space s = trim_right is_space (trim_left is_space s)

-- the code points of strings.ToLower(s); `unicode_lower` maps those past ASCII
abbrev pub lower_code : (ℕ → ℕ) → ℕ → ℕ
lower_code unicode_lower c =
    if ltb c 128 then (if leb b'A' c && leb c b'Z' then c + 32 else c) else unicode_lower c

unfoldable pub to_lower : (ℕ → ℕ) → String → List ℕ
to_lower u String.[] = []
to_lower u (String.◌∷◌ c s) = lower_code u (code c) ∷ to_lower u s

-- the code points of a text
abbrev pub codes : (text : String) → List ℕ
codes String.[] = []
codes (String.◌∷◌ first rest) = code first ∷ codes rest

abbrev pub is_prefix : List ℕ → List ℕ → Bool
is_prefix [] s = true
is_prefix (c ∷ p) [] = false
is_prefix (c ∷ p) (d ∷ s) = c == d && is_prefix p s

abbrev pub same_codes : List ℕ → List ℕ → Bool
same_codes [] [] = true
same_codes [] (d ∷ s) = false
same_codes (c ∷ p) [] = false
same_codes (c ∷ p) (d ∷ s) = c == d && same_codes p s

-- strings.Contains(s, p)
unfoldable pub contains_codes : List ℕ → List ℕ → Bool
contains_codes [] p = is_prefix p []
contains_codes (c ∷ s) p = is_prefix p (c ∷ s) || contains_codes s p

-- decimal digits, most significant first, after the value so far
digits_from : ℕ → List ℕ → Option ℕ
digits_from n [] = some n
digits_from n (c ∷ s) =
    let rest = digits_from (n * 10 + (c - b'0')) s in
    if leb b'0' c && leb c b'9' then rest else none

abbrev digits : List ℕ → Option ℕ
digits [] = none
digits (c ∷ s) = digits_from 0 (c ∷ s)

-- a number in the range of an int64, with its sign
abbrev signed : Bool → ℕ → Option ℤ
signed true n = if leb n (2 ^ 63) then some (pos 0 -ℤ pos n) else none
signed false n = if ltb n (2 ^ 63) then some (pos n) else none

abbrev signed_digits : Bool → List ℕ → Option ℤ
signed_digits negative s = elim (digits s) [ none ↦ none | some n ↦ signed negative n ]

-- strconv.Atoi and ParseInt(s, 10, 64): an optional sign and digits
atoi_codes : List ℕ → Option ℤ
unfolding digits_from ◌-ℤ◌
atoi_codes [] = none
atoi_codes (c ∷ s) =
    if c == b'-'
    then signed_digits true s
    else if c == b'+'
    then signed_digits false s
    else signed_digits false (c ∷ s)

-- the digits' value as a uint64: past its range, the greatest one, and the rest is not read
saturated : ℕ → List ℕ → Option ℕ
saturated n [] = some n
saturated n (c ∷ s) =
    let value = n * 10 + (c - b'0') in
    let rest = saturated value s in
    if leb b'0' c && leb c b'9'
    then if leb (2 ^ 64) value then some (2 ^ 64 - 1) else rest
    else none

-- the int64 nearest to it; 0 for a text that is no number
abbrev nearest : Bool → Option ℕ → ℤ
nearest negative none = pos 0
nearest true (some n) = if leb n (2 ^ 63) then pos 0 -ℤ pos n else pos 0 -ℤ pos (2 ^ 63)
nearest false (some n) = if ltb n (2 ^ 63) then pos n else pos (2 ^ 63 - 1)

abbrev magnitude : List ℕ → Option ℕ
unfolding saturated
magnitude [] = none
magnitude (c ∷ s) = saturated 0 (c ∷ s)

parse_codes : List ℕ → ℤ
unfolding magnitude ◌-ℤ◌
parse_codes [] = pos 0
parse_codes (c ∷ s) =
    if c == b'-'
    then nearest true (magnitude s)
    else if c == b'+'
    then nearest false (magnitude s)
    else nearest false (magnitude (c ∷ s))

-- the value of strconv.ParseInt(s, 10, 64), its error aside
unfoldable pub parse_int : String → ℤ
unfolding parse_codes
parse_int s = parse_codes (codes s)

unfoldable pub atoi : String → Option ℤ
unfolding atoi_codes
atoi s = atoi_codes (codes s)

-- s and t as lists of characters: whether `p` is a prefix, and the rest of s after it
abbrev pub after_prefix : String → String → Option String
after_prefix String.[] s = some s
after_prefix (String.◌∷◌ d p) String.[] = none
after_prefix (String.◌∷◌ d p) (String.◌∷◌ c s) =
    let rest = after_prefix p s in if code d == code c then rest else none

-- strings.HasPrefix(s, p)
abbrev pub has_prefix : String → String → Bool
has_prefix s p = is_prefix (codes p) (codes s)

-- strings.TrimPrefix(s, p)
abbrev pub trim_prefix : String → String → String
trim_prefix s p = elim (after_prefix p s) [ none ↦ s | some rest ↦ rest ]

-- strings.HasSuffix(s, p)
unfoldable pub has_suffix : String → String → Bool
has_suffix String.[] p = same_codes (codes p) []
has_suffix (String.◌∷◌ c s) p = same_codes (codes p) (codes (String.◌∷◌ c s)) || has_suffix s p

-- what folds with the ASCII letters: their capitals, U+017F with s and U+212A with k
abbrev fold : ℕ → ℕ
fold c = if c == 0x17f then b's' else if c == 0x212a then b'k' else lower_code (λ d. d) c

abbrev folded : String → List ℕ
folded String.[] = []
folded (String.◌∷◌ c s) = fold (code c) ∷ folded s

-- strings.EqualFold(s, p) for a p of ASCII letters
unfoldable pub equal_fold : String → String → Bool
equal_fold s p = same_codes (folded s) (folded p)

abbrev prepend : Char → List String → List String
prepend c [] = String.◌∷◌ c String.[] ∷ []
prepend c (s ∷ l) = String.◌∷◌ c s ∷ l

-- strings.Split(s, sep) for a separator of one character
unfoldable pub split_on : ℕ → String → List String
split_on sep String.[] = "" ∷ []
split_on sep (String.◌∷◌ c s) =
    let rest = split_on sep s in if code c == sep then "" ∷ rest else prepend c rest

-- the part of s before the first character `c`, if there is one past the start
unfoldable pub before : ℕ → String → String
before sep String.[] = ""
before sep (String.◌∷◌ c s) =
    let rest = before sep s in if code c == sep then "" else String.◌∷◌ c rest

-- s <= t for Go's order of strings, which is that of their code points
abbrev pub leb_codes : List ℕ → List ℕ → Bool
leb_codes [] t = true
leb_codes (c ∷ s) [] = false
leb_codes (c ∷ s) (d ∷ t) = let rest = leb_codes s t in if c == d then rest else ltb c d

insert_sorted : String → List String → List String
insert_sorted s [] = s ∷ []
insert_sorted s (t ∷ l) =
    let rest = insert_sorted s l in if leb_codes (codes s) (codes t) then s ∷ t ∷ l else t ∷ rest

-- slices.Sort on texts
unfoldable pub sort : List String → List String
unfolding insert_sorted
sort [] = []
sort (s ∷ l) = insert_sorted s (sort l)

-- the part of s after the first character `c`, if there is one
unfoldable pub after : ℕ → String → Option String
after sep String.[] = none
after sep (String.◌∷◌ c s) = let rest = after sep s in if code c == sep then some s else rest
