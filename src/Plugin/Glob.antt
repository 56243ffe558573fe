-- ===== src/Plugin/Glob.antt =====
-- pkg/plugin/glob.go: which entry paths a capability pattern covers.
pub mod Laws
use binpass.Prelude.{
  ℕ, zero, suc, Bool, true, false, not, ◌&&◌, ◌||◌, List, [], ◌∷◌, Option, none, some, Bytes, codes,
  ◌==◌, bytes_eq, nat_eq, if◌then◌else◌, contains, drop, length,
}
use binpass.Text.{split, has_prefix, has_suffix, index}

-- `splitPath`
unfoldable pub nonempty_parts : List Bytes → List Bytes
nonempty_parts [] = []
nonempty_parts (s ∷ parts) = let rest = nonempty_parts parts in if s == [] then rest else s ∷ rest

unfoldable pub split_path : Bytes → List Bytes
unfolding nonempty_parts
split_path p = nonempty_parts (split b'/' p)

-- The literals between stars, behind the first one: all but the last may float.
floats : List Bytes → Bytes → Bool
floats [] s = has_suffix s []
floats (lit ∷ []) s = has_suffix s lit
floats (lit ∷ next ∷ lits) s = elim (index s lit) [
  | none ↦ false
  | some i ↦ floats (next ∷ lits) (drop (length lit) (drop i s))
]

anchored : List Bytes → Bytes → Bool
anchored [] s = false
anchored (lit ∷ lits) s =
    if not (has_prefix s lit) then false else floats lits (drop (length lit) s)

-- `matchSegment`
unfoldable pub match_segment : Bytes → Bytes → Bool
unfolding anchored floats
match_segment pattern s =
    if pattern == codes "*"
    then true
    else if not (contains pattern b'*')
    then pattern == s
    else anchored (split b'*' pattern) s

-- Some end of the name.
unfoldable pub some_end : (List Bytes → Bool) → List Bytes → Bool
some_end f [] = f []
some_end f (s ∷ name) = f (s ∷ name) || some_end f name

unfoldable pub first_segment : Bytes → (List Bytes → Bool) → List Bytes → Bool
first_segment p f [] = false
first_segment p f (s ∷ name) = if not (match_segment p s) then false else f name

abbrev pub is_last : List Bytes → Bool
is_last [] = true
is_last (_ ∷ _) = false

abbrev pub any_depth : Bytes
any_depth = codes "**"

-- `matchSegments`
unfoldable pub match_segments : List Bytes → List Bytes → Bool
match_segments [] name = is_last name
match_segments (p ∷ pattern) name =
    if p == any_depth
    then is_last pattern || some_end (match_segments pattern) name
    else first_segment p (match_segments pattern) name

-- `MatchPath`
unfoldable pub match_path : Bytes → Bytes → Bool
unfolding match_segments some_end first_segment
match_path pattern name =
    if pattern == [] then false else match_segments (split_path pattern) (split_path name)

-- `MatchAny`
unfoldable pub match_any : List Bytes → Bytes → Bool
match_any [] name = false
match_any (p ∷ patterns) name = match_path p name || match_any patterns name
