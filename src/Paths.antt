-- ===== src/Paths.antt =====
-- Which names stay below a root: `CheckPath` of pkg/remote/remote.go, and `rel` of
-- pkg/storage/fs.go, over `path.Clean` for names that do not begin with a slash.
pub mod Laws
use binpass.Prelude.{
  ℕ, Bool, true, false, not, ◌&&◌, ◌||◌, List, [], ◌∷◌, ◌++◌, Option, none, some, Bytes, codes,
  nat_eqb, ◌==◌, bytes_eq, if◌then◌else◌,
}
use binpass.Text.{has_prefix, split, trim_prefix, trim_space}

abbrev pub dot_dot : Bytes
dot_dot = codes ".."

-- `..` takes the last component back, unless there is none, or that one is a `..` itself.
unfoldable pub back : List Bytes → List Bytes
back [] = dot_dot ∷ []
back (c ∷ above) = if c == dot_dot then dot_dot ∷ c ∷ above else above

-- The components kept so far, the last one first.
unfoldable pub clean_step : List Bytes → Bytes → List Bytes
clean_step kept c =
    if c == codes "" || c == codes "." then kept else if c == dot_dot then back kept else c ∷ kept

unfoldable pub clean_parts : List Bytes → List Bytes → List Bytes
clean_parts kept [] = kept
clean_parts kept (c ∷ cs) = clean_parts (clean_step kept c) cs

-- The components from the first on, joined by slashes behind a text.
unfoldable pub joined_onto : List Bytes → Bytes → Bytes
joined_onto [] rest = rest
joined_onto (c ∷ []) rest = c ++ rest
joined_onto (c ∷ d ∷ above) rest = joined_onto (d ∷ above) (b'/' ∷ (c ++ rest))

unfoldable pub cleaned : List Bytes → Bytes
unfolding joined_onto
cleaned [] = codes "."
cleaned (c ∷ kept) = joined_onto (c ∷ kept) []

-- `path.Clean`
unfoldable pub clean : Bytes → Bytes
unfolding clean_parts clean_step back joined_onto cleaned split
clean p = cleaned (clean_parts [] (split b'/' p))

-- `clean == ".." || strings.HasPrefix(clean, "../")`
unfoldable pub escapes : Bytes → Bool
unfolding has_prefix
escapes clean = clean == dot_dot || has_prefix clean (codes "../")

-- `strings.ReplaceAll(p, "\\", "/")`
unfoldable pub with_slashes : Bytes → Bytes
with_slashes [] = []
with_slashes (c ∷ p) = (if nat_eqb c b'\\' then b'/' else c) ∷ with_slashes p

has_nul : Bytes → Bool
has_nul [] = false
has_nul (c ∷ p) = nat_eqb c 0 || has_nul p

is_empty : Bytes → Bool
is_empty [] = true
is_empty (c ∷ p) = false

-- `CheckPath` on a Unix system, where a path is absolute if it begins with a slash and has no
-- volume name. It holds where the function returns no error.
unfoldable pub check_path : Bytes → Bool
unfolding has_nul is_empty
check_path p =
    not (is_empty p)
    && (not (has_nul p)
        && (not (has_prefix p (codes "/") || has_prefix p (b'\\' ∷ []))
            && (not (escapes (clean p)) && not (escapes (clean (with_slashes p))))))

unfoldable pub rel_of : Bytes → Option Bytes
rel_of [] = some (codes ".")
rel_of (c ∷ name) =
    if nat_eqb c b'/'
    then none
    else if escapes (clean (c ∷ name))
    then none
    else some (clean (c ∷ name))

-- `rel` of a store: the cleaned name, or none where it escapes the store.
unfoldable pub rel : Bytes → Option Bytes
unfolding rel_of
rel name = rel_of (trim_prefix (trim_space name) (codes "/"))
