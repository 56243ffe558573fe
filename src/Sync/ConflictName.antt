-- ===== src/Sync/ConflictName.antt =====
-- pkg/sync/merge.go and internal/cli/conflicts.go: the names of conflict files, and back.
pub mod Laws
pub mod Original
use binpass.Prelude.{
  ℕ, ◌+◌, Bool, true, false, not, ◌&&◌, ◌||◌, List, [], ◌∷◌, ◌++◌, Option, none, some, Bytes, codes,
  ltb, leb, nat_eqb, if◌then◌else◌, drop,
}
use binpass.Text.{index, last_index, take, contains_text}
use binpass.Sync.Version.{DeviceId}
use binpass.Sync.State.{FilePath}

unfoldable pub is_name_safe : ℕ → Bool
is_name_safe c =
    (leb b'a' c && leb c b'z')
    || ((leb b'A' c && leb c b'Z')
        || ((leb b'0' c && leb c b'9')
            || (nat_eqb c b'-' || (nat_eqb c b'.' || (nat_eqb c b'_' || nat_eqb c b':')))))

-- `nameSafe`. Every byte of a character outside ASCII is dropped with it.
unfoldable pub name_safe : Bytes → Bytes
unfolding is_name_safe
name_safe [] = []
name_safe (c ∷ s) = let rest = name_safe s in if is_name_safe c then c ∷ rest else rest

abbrev pub marker : Bytes
marker = codes ".conflict-"

unfoldable pub infix_of : DeviceId → Bytes → Bytes
infix_of device timestamp = marker ++ (device ++ (b'-' ∷ timestamp))

-- `dot < slash`, where -1 is `none`.
abbrev before_slash : ℕ → Option ℕ → Bool
before_slash dot none = false
before_slash dot (some slash) = ltb dot slash

-- The extension is cut off at the dot, unless there is none behind the last slash.
name_at : FilePath → Option ℕ → Option ℕ → Bytes → FilePath
name_at path slash none mark = path ++ mark
name_at path slash (some dot) mark =
    if before_slash dot slash then path ++ mark else take dot path ++ (mark ++ drop dot path)

unfoldable pub conflict_name : FilePath → DeviceId → Bytes → FilePath
unfolding name_safe infix_of name_at last_index take
conflict_name path device timestamp =
    name_at path (last_index b'/' path) (last_index b'.' path)
      (infix_of (name_safe device) (name_safe timestamp))

-- `isConflictFile`
unfoldable pub is_conflict_file : Bytes → Bool
unfolding contains_text
is_conflict_file name = contains_text name marker

-- What stands behind the last dot of the text, the dot included, unless it is the first byte.
extension_behind : Bytes → Option ℕ → Bytes
extension_behind s none = []
extension_behind s (some dot) = if ltb 0 dot then drop dot s else []

original_at : Bytes → Option ℕ → Bytes
original_at name none = name
original_at name (some i) =
    take i name ++ extension_behind (drop i name) (last_index b'.' (drop i name))

-- `conflictToOriginal`
unfoldable pub conflict_to_original : Bytes → Bytes
unfolding is_conflict_file original_at extension_behind index last_index take
conflict_to_original name =
    if not (is_conflict_file name) then name else original_at name (index name marker)
