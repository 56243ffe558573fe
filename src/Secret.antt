-- ===== src/Secret.antt =====
-- pkg/secret/secret.go: the pass format, a password line and free text under it.
pub mod Laws
use binpass.Prelude.{
  ℕ, Bool, true, false, ◌||◌, List, [], ◌∷◌, ◌++◌, Option, none, some, Bytes, codes, if◌then◌else◌,
  drop, ◌==◌, bytes_eq,
}
use binpass.Text.{
  has_prefix, trim_last, ends_in, cut, split, index, replace_first, up_to_blank, has_blank,
  trim_space,
}

-- `Secret`: all else is a view of the bytes, so `Parse` and `Bytes` are this field.
pub record Secret : Type 0 where
  pub raw : Bytes

-- `Parse`
abbrev pub parse : Bytes → Secret
parse b = record { raw = b }

abbrev newline : ℕ
newline = b'\n'

abbrev return : ℕ
return = b'\r'

-- What `New` writes under the password line.
pub closed : Bytes → Bytes
closed [] = []
closed (c ∷ body) = if ends_in newline (c ∷ body) then c ∷ body else (c ∷ body) ++ (newline ∷ [])

-- `New`
unfoldable pub create : Bytes → Bytes → Secret
unfolding closed ends_in
create password body = record { raw = password ++ (newline ∷ closed body) }

unfoldable pub password : Secret → Bytes
unfolding cut trim_last
password s = let (line, rest, found) = cut newline s.raw in trim_last return line

unfoldable pub body : Secret → Bytes
unfolding cut
body s = let (line, rest, found) = cut newline s.raw in if found then rest else []

unfoldable pub trim_returns : List Bytes → List Bytes
trim_returns [] = []
trim_returns (l ∷ ls) = trim_last return l ∷ trim_returns ls

lines_of : Bytes → List Bytes
lines_of [] = []
lines_of (c ∷ t) = trim_returns (split newline (c ∷ t))

unfoldable pub lines : Secret → List Bytes
unfolding lines_of trim_returns trim_last split
lines s = lines_of (trim_last newline s.raw)

pub record Field : Type 0 where
  pub key : Bytes
  pub value : Bytes

unfoldable pub split_key : Bytes → Bytes → Option Field
split_key [] v = none
split_key (c ∷ k) v =
    if has_blank (c ∷ k)
    then none
    else if has_prefix v (codes "//")
    then none
    else some (record { key = c ∷ k; value = trim_space v })

unfoldable pub split_field : Bytes → Option Field
unfolding split_key cut has_blank has_prefix trim_space
split_field line =
    let (k, v, found) = cut b':' line in if found then split_key (trim_space k) v else none

unfoldable pub collect_fields : List Bytes → List Field
collect_fields [] = []
collect_fields (l ∷ ls) =
    let rest = collect_fields ls in elim (split_field l) [ none ↦ rest | some f ↦ f ∷ rest ]

-- The lines behind the first: none where there are fewer than two.
unfoldable pub after_password : List Bytes → List Bytes
after_password [] = []
after_password (l ∷ ls) = ls

unfoldable pub fields : Secret → List Field
unfolding collect_fields after_password split_field lines
fields s = collect_fields (after_password (lines s))

field_in : (Bytes → Bytes → Bool) → Bytes → List Field → Option Bytes
field_in equal_fold name [] = none
field_in equal_fold name (f ∷ fs) =
    let rest = field_in equal_fold name fs in if equal_fold f.key name then some f.value else rest

-- `Field`; the parameter is `strings.EqualFold`.
unfoldable pub field : (Bytes → Bytes → Bool) → Secret → Bytes → Option Bytes
unfolding field_in fields
field equal_fold s name = field_in equal_fold name (fields s)

unfoldable pub extract_otp : Bytes → Option Bytes
unfolding index up_to_blank
extract_otp line = elim (index line (codes "otpauth://")) [
  | none ↦ none
  | some i ↦ some (up_to_blank (drop i line))
]

otp_lines : List Bytes → List Bytes
otp_lines [] = []
otp_lines (l ∷ ls) =
    let rest = otp_lines ls in elim (extract_otp l) [ none ↦ rest | some uri ↦ uri ∷ rest ]

-- `OTPAll`
unfoldable pub otp_all : Secret → List Bytes
unfolding otp_lines extract_otp lines
otp_all s = otp_lines (lines s)

unfoldable pub set_password : Secret → Bytes → Secret
unfolding create body
set_password s p = create p (body s)

unfoldable pub replace_line_containing : Secret → Bytes → Bytes → Secret
unfolding replace_first
replace_line_containing s old replacement = record { raw = replace_first s.raw old replacement }
