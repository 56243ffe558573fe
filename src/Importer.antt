-- ===== src/Importer.antt =====
-- pkg/importer/importer.go, convert.go and path.go: the entries of another program's export, the
-- secrets that they become and the names that they get. Titles and groups are valid UTF-8.
pub mod Write
pub mod Segments
pub mod Dots
pub mod Derived
use binpass.Prelude.{
  ℕ, zero, suc, Bool, true, false, not, ◌&&◌, ◌||◌, List, [], ◌∷◌, ◌++◌, Option, none, some, Bytes,
  codes, nat_eqb, length, drop, ◌==◌, bytes_eq, nat_eq, contains, if◌then◌else◌, Result, ok, err,
  ◌>>=◌, ◌+◌,
}
use binpass.Prelude.Dict.{Dict, lookup, insert}
use binpass.Text.{
  has_prefix, split, trim_prefix, trim_space, contains_text, leading, spaces, ends_in, decimal,
}
use binpass.Paths.{clean}
use binpass.Secret.{Secret, create}

-- `Field`
pub record Extra : Type 0 where
  pub label : Bytes
  pub content : Bytes

pub record Attachment : Type 0 where
  pub filename : Bytes
  pub blob : Bytes

-- `Entry`; `raw_secret` is the secret of an entry that comes from another pass store.
pub record Imported : Type 0 where
  pub title : Bytes
  pub explicit_path : Bytes
  pub group : Bytes
  pub main_password : Bytes
  pub raw_secret : Option Secret
  pub username : Bytes
  pub url : Bytes
  pub notes : Bytes
  pub totp_uri : Bytes
  pub extras : List Extra
  pub attachments : List Attachment

-- A line with a label, where there is something to write.
unfoldable labelled : Bytes → Bytes → Bytes
labelled label [] = []
labelled label (c ∷ v) = label ++ ((c ∷ v) ++ b'\n' ∷ [])

unfoldable extra_lines : List Extra → Bytes
extra_lines [] = []
extra_lines (f ∷ fs) = f.label ++ (codes ": " ++ (f.content ++ b'\n' ∷ extra_lines fs))

-- A text with a line feed at its end, where it is not empty.
unfoldable ended : Bytes → Bytes
ended [] = []
ended (c ∷ s) = if ends_in b'\n' (c ∷ s) then c ∷ s else (c ∷ s) ++ b'\n' ∷ []

unfoldable secret_of : Imported → Option Secret → Secret
unfolding labelled extra_lines ended create
secret_of e (some raw) = raw
secret_of e none = create e.main_password (
    labelled (codes "username: ") e.username
    ++ (labelled (codes "url: ") e.url
        ++ (extra_lines e.extras ++ (labelled [] e.totp_uri ++ ended e.notes))))

-- `ToSecret`
unfoldable pub to_secret : Imported → Secret
unfolding secret_of
to_secret e = secret_of e e.raw_secret

-- `sanitizeRune`: the characters of `pathInvalidRe` become underscores.
unfoldable pub sanitized : Bytes → Bytes
sanitized [] = []
sanitized (c ∷ s) = (if contains (codes "<>:\"|?*\\") c then b'_' else c) ∷ sanitized s

-- A white space, which is one blank if none stands before it, or a byte of another character.
abbrev pub respaced : ℕ → Bool → ℕ → Bytes → Bytes
respaced zero after c rest = c ∷ rest
respaced (suc n) after c rest = if after then rest else b' ' ∷ rest

-- What is left behind a white space of so many bytes, or behind a byte of another character.
abbrev pub behind : ℕ → Bytes → Bytes
behind zero s = s
behind (suc n) s = drop n s

-- The loop of `collapseWhitespace`; each round takes a byte at least.
unfoldable pub collapsed : ℕ → Bool → Bytes → Bytes
unfolding leading
collapsed zero after s = []
collapsed (suc fuel) after [] = []
collapsed (suc fuel) after (c ∷ s) =
    let n = leading spaces (c ∷ s) in
    respaced n after c (collapsed fuel (not (nat_eqb n 0)) (behind n s))

unfoldable pub collapse_whitespace : Bytes → Bytes
unfolding collapsed trim_space
collapse_whitespace s = trim_space (collapsed (length s) false s)

-- A run of dots becomes one, as `dotRunRe` has it.
unfoldable pub collapse_dots : Bytes → Bytes
unfolding has_prefix
collapse_dots [] = []
collapse_dots (c ∷ s) =
    let rest = collapse_dots s in
    if nat_eqb c b'.' && has_prefix s (codes ".") then rest else c ∷ rest

unfoldable pub segments_of : Bytes → List Bytes
unfolding split
segments_of [] = []
segments_of (c ∷ s) = split b'/' (c ∷ s)

-- `splitPath`
unfoldable pub split_path : Bytes → Bytes → List Bytes
unfolding segments_of trim_space
split_path group title = segments_of (trim_space group) ++ segments_of (trim_space title)

-- The loop of `NormalizePath`
unfoldable pub normalized_parts : List Bytes → List Bytes
unfolding sanitized collapse_whitespace collapse_dots
normalized_parts [] = []
normalized_parts (s ∷ ss) =
    let rest = normalized_parts ss in
    let t = collapse_dots (collapse_whitespace (sanitized s)) in
    if t == codes "" || t == codes "." then rest else t ∷ rest

-- The parts behind the first, each with a slash in front.
unfoldable pub behind_slashes : List Bytes → Bytes
behind_slashes [] = []
behind_slashes (p ∷ ps) = b'/' ∷ (p ++ behind_slashes ps)

-- `path.Join` of parts that are not empty.
unfoldable pub join : List Bytes → Bytes
unfolding behind_slashes clean
join [] = []
join (p ∷ ps) = clean (p ++ behind_slashes ps)

-- `NormalizePath`
unfoldable pub normalize_path : Bytes → Bytes → Bytes
unfolding normalized_parts split_path join trim_prefix
normalize_path group title =
    trim_prefix (trim_prefix (join (normalized_parts (split_path group title))) (codes "../"))
      (codes "..")

-- `ValidatePath`
unfoldable pub validate_path : Bytes → Bool
unfolding has_prefix contains_text split
validate_path p =
    not (p == [])
    && (not (has_prefix p (codes "/"))
        && (not (contains_text p (codes "..")) && not (contains (split b'/' p) [])))

-- How often a name was seen.
abbrev pub times : Option ℕ → ℕ
times none = 0
times (some n) = n

-- The name of an entry of which so many have come before.
unfoldable pub numbered : Bytes → ℕ → Bytes
unfolding decimal
numbered p n = if nat_eqb n 0 then p else p ++ b'-' ∷ decimal (suc n)

unfoldable deduplicate_from : Dict Bytes ℕ → List Bytes → List Bytes
unfolding numbered
deduplicate_from seen [] = []
deduplicate_from seen (p ∷ ps) =
    numbered p (times (lookup p seen))
    ∷ deduplicate_from (insert p (suc (times (lookup p seen))) seen) ps

-- `DeduplicatePaths`
unfoldable pub deduplicate_paths : List Bytes → List Bytes
unfolding deduplicate_from
deduplicate_paths ps = deduplicate_from [] ps

pub data PathError : Type 0 where
  invalid out_of_range : PathError

unfoldable pub given_or_derived : Bytes → Bytes → Bytes → Bytes
unfolding normalize_path
given_or_derived [] group title = normalize_path group title
given_or_derived (c ∷ p) group title = c ∷ p

-- `StorePath`
unfoldable pub store_path : Imported → Result PathError Bytes
unfolding given_or_derived validate_path
store_path e =
    let p = given_or_derived e.explicit_path e.group e.title in
    if validate_path p then ok p else err invalid

abbrev at_index : ℕ → List Attachment → Option Attachment
at_index i [] = none
at_index zero (a ∷ rest) = some a
at_index (suc i) (a ∷ rest) = at_index i rest

abbrev file_name : Bytes → ℕ → Bytes
file_name [] i = codes "attachment-" ++ decimal (suc i)
file_name (c ∷ name) i = c ∷ name

-- The entry of an attachment of the entry under a path.
unfoldable pub attached : Bytes → ℕ → Attachment → Bytes
unfolding decimal
attached base i a = base ++ (b'/' ∷ file_name a.filename i ++ codes ".b64")

abbrev attached_at : Bytes → ℕ → Option Attachment → Result PathError Bytes
attached_at base i none = err out_of_range
attached_at base i (some a) = ok (attached base i a)

-- `AttachmentStorePath`
unfoldable pub attachment_store_path : Imported → ℕ → Result PathError Bytes
unfolding store_path attached
attachment_store_path e i = do base ← store_path e; attached_at base i (at_index i e.attachments)
