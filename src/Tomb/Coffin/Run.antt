-- ===== src/Tomb/Coffin/Run.antt =====
-- Close, readRecipients, packEncrypt and the preconditions of Open in pkg/tomb/coffin.go: a store
-- and the state that is written down of it. The file system does what it is told, the archive
-- format and the encryption are parameters.
pub mod Laws
use binpass.Prelude.{
  ℕ, ltb, Bool, true, false, not, ◌||◌, ◌&&◌, List, [], ◌∷◌, ◌++◌, Option, none, some, Bytes, codes,
  nat_eqb, ◌==◌, bytes_eq, if◌then◌else◌,
}
use binpass.Text.{split}
use binpass.Tomb.Tree.{Folder, Node, file, link, folder, empty, entry, child, put_file, drop_entry}
use binpass.Tomb.Backends.{coffin_file, is_some, has_container}
use binpass.Tomb.State.{State, Backend, coffin, is_stale}
use binpass.Tomb.Coffin.{has_plaintext, TarEntry, write_tar, Links, shred_folder}
use mathlib.Core.List.{reverse}

abbrev pub writing_file : Bytes
writing_file = codes "store.coffin.age.tmp.writing"

abbrev pub tmp_file : Bytes
tmp_file = codes "store.coffin.age.tmp"

-- `trimSpace`
drop_blanks : Bytes → Bytes
drop_blanks [] = []
drop_blanks (c ∷ s) =
    let rest = drop_blanks s in if nat_eqb c b' ' || nat_eqb c b'\t' then rest else c ∷ s

unfoldable pub trim_blanks : Bytes → Bytes
unfolding drop_blanks
trim_blanks s = reverse (drop_blanks (reverse (drop_blanks s)))

-- `splitLines`, with an empty last line, which is no recipient either.
abbrev recipient_onto : Bytes → List Bytes → List Bytes
recipient_onto [] rest = rest
recipient_onto (c ∷ line) rest = if nat_eqb c b'#' then rest else (c ∷ line) ∷ rest

recipients_of : List Bytes → List Bytes
recipients_of [] = []
recipients_of (line ∷ lines) = recipient_onto (trim_blanks line) (recipients_of lines)

-- `os.ReadFile` of a name in the store.
abbrev pub read_file : Links → Option Node → Option Bytes
read_file links none = none
read_file links (some (file content)) = some content
read_file links (some (link target)) = links.read target
read_file links (some (folder _)) = none

abbrev listed : Option Bytes → List Bytes
listed none = []
listed (some text) = recipients_of (split b'\n' text)

abbrev first_listed : List Bytes → List Bytes → Option (List Bytes)
first_listed (r ∷ rs) _ = some (r ∷ rs)
first_listed [] (r ∷ rs) = some (r ∷ rs)
first_listed [] [] = none

-- `readRecipients`
unfoldable pub read_recipients : Links → Folder → Option (List Bytes)
unfolding recipients_of
read_recipients links d =
    first_listed (listed (read_file links (child (codes ".age-recipients") d)))
      (listed (read_file links (child (codes ".gpg-id") d)))

-- `os.Rename` of a file in the store, which does not replace a directory.
renamed : Option Node → Option Node → Bytes → Bytes → Folder → Option Folder
renamed (some (file _)) (some (folder _)) source name d = none
renamed (some (file content)) _ source name d = some (put_file name content (drop_entry source d))
renamed _ _ source name d = none

unfoldable pub rename : Bytes → Bytes → Folder → Option Folder
unfolding renamed
rename source name d = renamed (child source d) (child name d) source name d

-- The branches of `Close` that fail.
pub data CloseError : Type 0 where
  not_open no_recipients reencrypt_failed rename_failed : CloseError

-- The branches of `Open` that fail before it unpacks.
pub data OpenError : Type 0 where
  not_initialised already_open : OpenError

-- The directory of a store and the state that is written down of it.
pub record World : Type 0 where
  pub dir : Folder
  pub state : Option State

abbrev failed : World → CloseError → World × Option CloseError
failed w e = (w, some e)

-- `ParseAgeRecipients` with `age.Encrypt`, for the recipients and the archive that are given.
module _ (links : Links) (seal : List Bytes → List TarEntry → Option Bytes) where
  written : Folder → Bytes → Bytes → Option Bytes → Option Folder
  written d writing output none = none
  written d writing output (some sealed) =
      if is_some (child writing d) then none else rename writing output (put_file writing sealed d)

  -- `packEncrypt` of a store into a file of that store; none where it fails, which leaves the store
  -- as it was.
  unfoldable pub pack_encrypt : Folder → Bytes → Bytes → List Bytes → Option Folder
  unfolding written rename
  pack_encrypt d writing output rcp = written d writing output (seal rcp (write_tar d))

  -- The new archive is in the place of the old one: the plaintext is shredded, the state removed.
  swapped : World → Folder → Option Folder → World × Option CloseError
  swapped w packed none = failed (record w { dir = drop_entry tmp_file packed }) rename_failed
  swapped w packed (some d) = (record { dir = shred_folder links d; state = none }, none)

  packed_as : World → Option Folder → World × Option CloseError
  packed_as w none = failed w reencrypt_failed
  packed_as w (some d) = swapped w d (rename tmp_file coffin_file d)

  closed_for : World → Option (List Bytes) → World × Option CloseError
  closed_for w none = failed w no_recipients
  closed_for w (some rcp) = packed_as w (pack_encrypt w.dir writing_file tmp_file rcp)

  -- `Close`, with the store that it leaves and its error. Its `force` only spares the overwriting of
  -- the files, which does not show here.
  unfoldable pub close : World → World × Option CloseError
  unfolding closed_for packed_as swapped pack_encrypt written rename
  close w =
      if not (has_plaintext w.dir)
      then failed w not_open
      else closed_for w (read_recipients links w.dir)

module _ (pid_is_dead : ℕ → Bool) where
  state_check : World → Option State → World × Option OpenError
  state_check w none = (w, none)
  state_check w (some s) =
      if not (is_stale pid_is_dead s)
      then (w, some already_open)
      else (record w { state = none }, none)

  -- What `Open` does before it unpacks the archive.
  unfoldable pub open_check : World → World × Option OpenError
  unfolding state_check
  open_check w =
      if not (is_some (child coffin_file w.dir))
      then (w, some not_initialised)
      else if has_plaintext w.dir
      then (w, some already_open)
      else state_check w w.state

  -- Whether the store counts as open for `Status`.
  status_open : World → Option State → Bool
  status_open w none = has_container w.dir && has_plaintext w.dir
  status_open w (some s) = not (is_stale pid_is_dead s)

  unfoldable pub is_open : World → Bool
  unfolding status_open has_container
  is_open w = status_open w w.state
