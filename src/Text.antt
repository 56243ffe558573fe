-- ===== src/Text.antt =====
-- What the program uses of Go's packages strings and strconv, over the bytes of a string.
pub mod Laws
use binpass.Prelude.{
  ℕ, zero, suc, ◌+◌, ◌-◌, ◌*◌, ◌/◌, ◌%◌, ◌^◌, Bool, true, false, not, ◌&&◌, ◌||◌, List, [], ◌∷◌,
  ◌++◌, Option, none, some, Bytes, nat_eqb, leb, ltb, if◌then◌else◌, length, drop, codes,
}
use mathlib.Core.List.{reverse}

unfoldable pub has_prefix : Bytes → Bytes → Bool
has_prefix s [] = true
has_prefix [] (p ∷ ps) = false
has_prefix (c ∷ s) (p ∷ ps) = nat_eqb c p && has_prefix s ps

-- `strings.TrimPrefix`
unfoldable pub trim_prefix : Bytes → Bytes → Bytes
unfolding has_prefix
trim_prefix s p = if has_prefix s p then drop (length p) s else s

-- `strings.HasSuffix`
unfoldable pub has_suffix : Bytes → Bytes → Bool
unfolding has_prefix
has_suffix s p = has_prefix (reverse s) (reverse p)

-- `strings.TrimSuffix` for a suffix of one byte.
unfoldable pub trim_last : ℕ → Bytes → Bytes
trim_last b [] = []
trim_last b (c ∷ []) = if nat_eqb c b then [] else c ∷ []
trim_last b (c ∷ d ∷ s) = c ∷ trim_last b (d ∷ s)

-- Whether the last byte is `b`.
unfoldable pub ends_in : ℕ → Bytes → Bool
ends_in b [] = false
ends_in b (c ∷ []) = nat_eqb c b
ends_in b (c ∷ d ∷ s) = ends_in b (d ∷ s)

-- `strings.Cut` at a separator of one byte: what stands before it, what stands behind it, and
-- whether it was found.
unfoldable pub cut : ℕ → Bytes → Bytes × Bytes × Bool
cut b [] = ([], [], false)
cut b (c ∷ s) =
    let (before, after, found) = cut b s in
    if nat_eqb c b then ([], s, true) else (c ∷ before, after, found)

-- A byte in front of the first of several lines.
abbrev pub onto_first : ℕ → List Bytes → List Bytes
onto_first c [] = (c ∷ []) ∷ []
onto_first c (l ∷ ls) = (c ∷ l) ∷ ls

-- `strings.Split` at a separator of one byte.
unfoldable pub split : ℕ → Bytes → List Bytes
split b [] = [] ∷ []
split b (c ∷ s) = let rest = split b s in if nat_eqb c b then [] ∷ rest else onto_first c rest

abbrev later : Option ℕ → Option ℕ
later none = none
later (some i) = some (suc i)

-- `strings.Index`
unfoldable pub index : Bytes → Bytes → Option ℕ
unfolding has_prefix
index [] sub = if has_prefix [] sub then some 0 else none
index (c ∷ s) sub =
    let rest = later (index s sub) in if has_prefix (c ∷ s) sub then some 0 else rest

-- `s[:i]`, which the program takes within the bounds only.
unfoldable pub take : ℕ → Bytes → Bytes
take zero s = []
take (suc n) [] = []
take (suc n) (c ∷ s) = c ∷ take n s

-- `strings.Contains`
unfoldable pub contains_text : Bytes → Bytes → Bool
unfolding index
contains_text s sub = elim (index s sub) [ none ↦ false | some _ ↦ true ]

-- `strings.Replace` with a count of 1.
unfoldable pub replace_first : Bytes → Bytes → Bytes → Bytes
unfolding has_prefix
replace_first [] old new = if has_prefix [] old then new else []
replace_first (c ∷ s) old new =
    let rest = replace_first s old new in
    if has_prefix (c ∷ s) old then new ++ drop (length old) (c ∷ s) else c ∷ rest

unfoldable pub is_blank : ℕ → Bool
is_blank c = nat_eqb c b' ' || nat_eqb c b'\t'

-- The part up to the first blank: `s[:strings.IndexAny(s, " \t")]`, or all of it.
unfoldable pub up_to_blank : Bytes → Bytes
unfolding is_blank
up_to_blank [] = []
up_to_blank (c ∷ s) = let rest = up_to_blank s in if is_blank c then [] else c ∷ rest

-- `strings.ContainsAny(s, " \t")`
unfoldable pub has_blank : Bytes → Bool
unfolding is_blank
has_blank [] = false
has_blank (c ∷ s) = is_blank c || has_blank s

-- The encodings of the characters that `unicode.IsSpace` accepts.
abbrev pub spaces : List Bytes
spaces =
    (0x20 ∷ [])
    ∷ (0x09 ∷ [])
    ∷ (0x0a ∷ [])
    ∷ (0x0b ∷ [])
    ∷ (0x0c ∷ [])
    ∷ (0x0d ∷ [])
    ∷ (0xc2 ∷ 0x85 ∷ [])
    ∷ (0xc2 ∷ 0xa0 ∷ [])
    ∷ (0xe1 ∷ 0x9a ∷ 0x80 ∷ [])
    ∷ (0xe2 ∷ 0x80 ∷ 0x80 ∷ [])
    ∷ (0xe2 ∷ 0x80 ∷ 0x81 ∷ [])
    ∷ (0xe2 ∷ 0x80 ∷ 0x82 ∷ [])
    ∷ (0xe2 ∷ 0x80 ∷ 0x83 ∷ [])
    ∷ (0xe2 ∷ 0x80 ∷ 0x84 ∷ [])
    ∷ (0xe2 ∷ 0x80 ∷ 0x85 ∷ [])
    ∷ (0xe2 ∷ 0x80 ∷ 0x86 ∷ [])
    ∷ (0xe2 ∷ 0x80 ∷ 0x87 ∷ [])
    ∷ (0xe2 ∷ 0x80 ∷ 0x88 ∷ [])
    ∷ (0xe2 ∷ 0x80 ∷ 0x89 ∷ [])
    ∷ (0xe2 ∷ 0x80 ∷ 0x8a ∷ [])
    ∷ (0xe2 ∷ 0x80 ∷ 0xa8 ∷ [])
    ∷ (0xe2 ∷ 0x80 ∷ 0xa9 ∷ [])
    ∷ (0xe2 ∷ 0x80 ∷ 0xaf ∷ [])
    ∷ (0xe2 ∷ 0x81 ∷ 0x9f ∷ [])
    ∷ (0xe3 ∷ 0x80 ∷ 0x80 ∷ [])
    ∷ []

-- The length of the first of these texts that `s` begins with, or 0.
unfoldable pub leading : List Bytes → Bytes → ℕ
unfolding has_prefix
leading [] s = 0
leading (p ∷ ps) s = let rest = leading ps s in if has_prefix s p then length p else rest

-- Drops such texts from the front. Each takes a byte at least, so the length is fuel enough.
unfoldable pub trim_front : ℕ → List Bytes → Bytes → Bytes
unfolding leading
trim_front zero ps s = s
trim_front (suc fuel) ps s =
    let rest = trim_front fuel ps (drop (leading ps s) s) in
    if nat_eqb (leading ps s) 0 then s else rest

abbrev pub backwards : List Bytes → List Bytes
backwards [] = []
backwards (p ∷ ps) = reverse p ∷ backwards ps

-- `strings.TrimSpace`
unfoldable pub trim_space : Bytes → Bytes
unfolding trim_front
trim_space s =
    let front = trim_front (length s) spaces s in
    reverse (trim_front (length front) (backwards spaces) (reverse front))

-- `strings.ReplaceAll` of one byte by nothing.
unfoldable pub without : ℕ → Bytes → Bytes
without b [] = []
without b (c ∷ s) = let rest = without b s in if nat_eqb c b then rest else c ∷ rest

-- The decimal digits of a number below 10 ^ fuel, in front of `rest`.
unfoldable pub digits_onto : ℕ → ℕ → Bytes → Bytes
digits_onto zero n rest = rest
digits_onto (suc fuel) n rest =
    let more = digits_onto fuel (n / 10) ((b'0' + n % 10) ∷ rest) in
    if ltb n 10 then (b'0' + n) ∷ rest else more

-- `%d` of a 64-bit word, which has 20 digits at most.
unfoldable pub decimal : ℕ → Bytes
unfolding digits_onto
decimal n = digits_onto 20 n []

unfoldable pub is_digit : ℕ → Bool
is_digit c = leb b'0' c && leb c b'9'

unfoldable pub digits_value : ℕ → Bytes → Option ℕ
unfolding is_digit
digits_value acc [] = some acc
digits_value acc (c ∷ s) =
    let rest = digits_value (acc * 10 + (c - b'0')) s in if is_digit c then rest else none

abbrev below : ℕ → Option ℕ → Option ℕ
below limit none = none
below limit (some n) = if ltb n limit then some n else none

-- `strconv.ParseUint(s, 10, 64)`
unfoldable pub parse_uint : Bytes → Option ℕ
unfolding digits_value
parse_uint [] = none
parse_uint (c ∷ s) = below (2 ^ 64) (digits_value 0 (c ∷ s))

-- A number that `strconv.Atoi` reads: whether it has a minus sign, and its size.
abbrev pub Signed : Type 0
Signed = Bool × ℕ

abbrev signed : Bool → Option ℕ → Option Signed
signed minus none = none
signed minus (some n) = some (minus, n)

abbrev nonempty_digits : Bytes → Option ℕ
nonempty_digits [] = none
nonempty_digits (c ∷ s) = digits_value 0 (c ∷ s)

-- `strconv.Atoi` on a 64-bit machine.
unfoldable pub atoi : Bytes → Option Signed
unfolding digits_value
atoi [] = none
atoi (c ∷ s) =
    if nat_eqb c b'-'
    then signed true (below (2 ^ 63 + 1) (nonempty_digits s))
    else if nat_eqb c b'+'
    then signed false (below (2 ^ 63) (nonempty_digits s))
    else signed false (below (2 ^ 63) (nonempty_digits (c ∷ s)))

abbrev pub found_later : Option ℕ → Bool → Option ℕ
found_later (some j) here = some (suc j)
found_later none true = some 0
found_later none false = none

-- `strings.LastIndex` of a text of one byte.
unfoldable pub last_index : ℕ → Bytes → Option ℕ
last_index b [] = none
last_index b (c ∷ s) = found_later (last_index b s) (nat_eqb c b)
