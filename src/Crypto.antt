-- ===== src/Crypto.antt =====
-- pkg/crypto/recipients.go: the file that lists whom a directory's entries are encrypted to. A
-- directory is its path from the root of the store, and the root is `.`.
pub mod Nearest
pub mod Listed
use binpass.Prelude.{
  ℕ, zero, suc, Bool, true, false, not, ◌||◌, ◌&&◌, List, [], ◌∷◌, ◌++◌, Option, none, some, Bytes,
  codes, ◌==◌, bytes_eq, if◌then◌else◌, length, leb,
}
use binpass.Prelude.Dict.{lookup, insert}
use binpass.Text.{has_prefix, trim_last, split, trim_space}
use binpass.Secret.{trim_returns}
use binpass.Storage.{Disk, dir_of}

-- What a walk to the root ends with; `spent` says that the fuel ran out.
pub data Walk : Type 0 where
  found : Bytes → Walk
  missing spent : Walk

-- `filepath.Join` of a directory and a name.
unfoldable pub candidate : Bytes → Bytes → Bytes
candidate dir name = if dir == codes "." then name else dir ++ b'/' ∷ name

-- `isWithin`
unfoldable pub is_within : Bytes → Bool
unfolding has_prefix
is_within dir = dir == codes "." || not (has_prefix dir (codes ".."))

-- A round of the walk: the file of a directory, the end of the walk, or what is higher up.
abbrev pub stepped : Option Bytes → Bool → Bytes → Walk → Walk
stepped (some _) last p higher = found p
stepped none true p higher = missing
stepped none false p higher = higher

-- The loop of `findRecipientsFile`
unfoldable pub walk_up : ℕ → Bytes → Bytes → Disk → Walk
unfolding candidate dir_of
walk_up zero dir name d = spent
walk_up (suc fuel) dir name d =
    let higher = walk_up fuel (dir_of dir) name d in
    stepped (lookup (candidate dir name) d) (dir == codes "." || dir_of dir == dir)
      (candidate dir name) higher

-- `findRecipientsFile`
unfoldable pub find_recipients_file : Bytes → Bytes → Disk → Walk
unfolding is_within walk_up
find_recipients_file dir name d =
    if is_within dir then walk_up (suc (suc (length dir))) dir name d else missing

-- The lines of `bufio.Scanner`, with their carriage returns.
abbrev pub raw_lines : Bytes → List Bytes
raw_lines [] = []
raw_lines (c ∷ s) = split b'\n' (trim_last b'\n' (c ∷ s))

-- A line that does not fit the buffer of a scanner ends the reading with an error.
abbrev pub scan_limit : ℕ
scan_limit = 65536

unfoldable pub some_too_long : List Bytes → Bool
some_too_long [] = false
some_too_long (l ∷ ls) = leb scan_limit (length l) || some_too_long ls

unfoldable pub named_recipients : List Bytes → List Bytes
unfolding trim_space has_prefix
named_recipients [] = []
named_recipients (l ∷ ls) =
    let rest = named_recipients ls in
    let line = trim_space l in
    if line == [] || has_prefix line (codes "#") then rest else line ∷ rest

abbrev pub or_nobody : List Bytes → Option (List Bytes)
or_nobody [] = none
or_nobody (r ∷ rcp) = some (r ∷ rcp)

-- `readRecipientsFile`
unfoldable pub read_recipients_file : Bytes → Option (List Bytes)
unfolding some_too_long named_recipients trim_returns split trim_last
read_recipients_file content =
    let lines = raw_lines content in
    if some_too_long lines then none else or_nobody (named_recipients (trim_returns lines))

unfoldable pub recipients_text : List Bytes → Bytes
recipients_text [] = []
recipients_text (r ∷ rcp) = r ++ b'\n' ∷ recipients_text rcp

-- `WriteRecipients`
unfoldable pub write_recipients : Bytes → List Bytes → Disk → Option Disk
unfolding recipients_text
write_recipients path [] d = none
write_recipients path (r ∷ rcp) d = some (insert path (recipients_text (r ∷ rcp)) d)
