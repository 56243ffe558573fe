-- ===== src/Storage.antt =====
-- pkg/storage: the files of a store, under their paths from its root.
use binpass.Prelude.{
  ℕ, Bool, true, false, not, ◌&&◌, List, [], ◌∷◌, ◌++◌, Option, none, some, Bytes, codes, nat_eqb,
  nat_eq, contains, length, drop, ◌-◌, ◌||◌, ◌==◌, bytes_eq, if◌then◌else◌, Result, ok, err, ◌>>=◌,
}
use binpass.Prelude.Dict.{Dict, lookup}
use binpass.Text.{take, last_index, has_prefix, split}
use binpass.Sync.Merge.{bytes_ltb}
use binpass.Paths.{rel}

-- The content of each file; a directory is there if there is a file below it, and the directories
-- that hold nothing, which `pruneEmpty` removes, do not show.
abbrev pub Disk : Type 0
Disk = Dict Bytes Bytes

-- `ErrOutsideStore` and `fs.ErrNotExist`
pub data FindError : Type 0 where
  outside not_exist : FindError

abbrev pub relative : Option Bytes → Result FindError Bytes
relative none = err outside
relative (some p) = ok p

-- `Path`, from the root of the store.
unfoldable pub path_of : Bytes → Bytes → Result FindError Bytes
path_of name ext = do p ← relative (rel name); ok (p ++ ext)

-- `DirPath`, from the root of the store.
unfoldable pub dir_path : Bytes → Result FindError Bytes
dir_path name = relative (rel name)

-- `filepath.Dir` of a clean path; `..` is the parent of the root.
abbrev pub up_to : Bytes → Option ℕ → Bytes
up_to p none = codes "."
up_to p (some i) = take i p

unfoldable pub dir_of : Bytes → Bytes
dir_of p = if p == codes "." then codes ".." else up_to p (last_index b'/' p)

abbrev pub nonempty : Bytes → Bool
nonempty [] = false
nonempty (_ ∷ _) = true

-- `filepath.Ext`
unfoldable pub ext_of : Bytes → Bytes
ext_of [] = []
ext_of (c ∷ s) =
    let e = ext_of s in
    if nonempty e then e else if nat_eqb c b'.' && not (contains s b'/') then c ∷ s else []

abbrev or_later : Option Bytes → Bytes → Option Bytes → Option Bytes
or_later none path later = later
or_later (some _) path later = some path

-- The first of the files under an entry's path and an extension.
unfoldable pub first_file : Bytes → List Bytes → Disk → Option Bytes
first_file p [] d = none
first_file p (ext ∷ exts) d = or_later (lookup (p ++ ext) d) (p ++ ext) (first_file p exts d)

abbrev pub found : Option Bytes → Result FindError Bytes
found none = err not_exist
found (some path) = ok path

-- `Find`
unfoldable pub find : Bytes → List Bytes → Disk → Result FindError Bytes
unfolding first_file
find name exts d = do p ← relative (rel name); found (first_file p exts d)

abbrev pub under : Bytes → Bytes
under root = if root == codes "." then [] else root ++ b'/' ∷ []

-- Whether a path lies below a directory.
abbrev pub is_below : Bytes → Bytes → Bool
is_below root path = has_prefix path (under root)

unfoldable pub any_below : Bytes → Disk → Bool
any_below root [] = false
any_below root ((path, _) ∷ d) = is_below root path || any_below root d

-- `IsDir`; the root of a store is one.
dir_there : Result FindError Bytes → Disk → Bool
dir_there (err _) d = false
dir_there (ok root) d = root == codes "." || any_below root d

unfoldable pub is_dir : Bytes → Disk → Bool
unfolding dir_there any_below
is_dir name d = dir_there (dir_path name) d

-- `Entry`
pub record Entry : Type 0 where
  pub name : Bytes
  pub path : Bytes
  pub ext : Bytes

-- No component begins with a dot.
visible : List Bytes → Bool
visible [] = true
visible (c ∷ cs) = not (has_prefix c (codes ".")) && visible cs

abbrev entry_at : Bytes → Entry
entry_at path = record {
  name = take (length path - length (ext_of path)) path;
  path = path;
  ext = ext_of path;
}

insert_entry : Entry → List Entry → List Entry
insert_entry e [] = e ∷ []
insert_entry e (f ∷ es) =
    let rest = insert_entry e es in if bytes_ltb f.name e.name then f ∷ rest else e ∷ f ∷ es

entries_below : Bytes → List Bytes → Disk → List Entry
entries_below root exts [] = []
entries_below root exts ((path, _) ∷ d) =
    let rest = entries_below root exts d in
    if is_below root path
      && (visible (split b'/' (drop (length (under root)) path)) && contains exts (ext_of path))
    then insert_entry (entry_at path) rest
    else rest

-- `Entries` of a directory that is there.
unfoldable pub entries : Bytes → List Bytes → Disk → Result FindError (List Entry)
unfolding entries_below insert_entry visible
entries name exts d = do
  root ← dir_path name
  if root == codes "." || any_below root d then ok (entries_below root exts d) else err not_exist

-- The files that do not lie below a directory.
unfoldable pub drop_below : Bytes → Disk → Disk
drop_below root [] = []
drop_below root ((path, c) ∷ d) =
    let rest = drop_below root d in if is_below root path then rest else (path, c) ∷ rest
