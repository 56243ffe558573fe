-- ===== src/Tomb/Tree.antt =====
-- The directory of a store: files, symbolic links and directories, each directory in the order in
-- which filepath.WalkDir and os.ReadDir visit it. Permissions and times are left out.
use binpass.Prelude.{
  Bool, true, false, List, [], ◌∷◌, Option, none, some, Bytes, ◌==◌, bytes_eq, if◌then◌else◌,
}

mutual
  pub data Node : Type 0 where
    file : Bytes → Node
    link : Bytes → Node
    folder : Folder → Node

  pub data Folder : Type 0 where
    empty : Folder
    entry : Bytes → Node → Folder → Folder

-- What has a name in a directory.
unfoldable pub child : Bytes → Folder → Option Node
child n empty = none
child n (entry m x rest) = if n == m then some x else child n rest

abbrev pub within : Option Node → (Folder → Option Node) → Option Node
within none f = none
within (some (file _)) f = none
within (some (link _)) f = none
within (some (folder d)) f = f d

-- What has a path, which is a name and the names below it.
unfoldable pub find : Bytes → List Bytes → Folder → Option Node
unfolding child
find n [] d = child n d
find n (m ∷ path) d = within (child n d) (find m path)

abbrev pub is_empty : Folder → Bool
is_empty empty = true
is_empty (entry _ _ _) = false

-- An entry in front of a directory, if there is one.
abbrev pub with_entry : Bytes → Option Node → Folder → Folder
with_entry n none rest = rest
with_entry n (some x) rest = entry n x rest

-- A file of a name, in place of what had that name, or at the end.
unfoldable pub put_file : Bytes → Bytes → Folder → Folder
put_file n content empty = entry n (file content) empty
put_file n content (entry m x rest) =
    if n == m then entry n (file content) rest else entry m x (put_file n content rest)

-- A directory without the entries of a name.
unfoldable pub drop_entry : Bytes → Folder → Folder
drop_entry n empty = empty
drop_entry n (entry m x rest) =
    let kept = drop_entry n rest in if n == m then kept else entry m x kept
