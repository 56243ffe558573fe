-- ===== src/Tomb/Coffin.antt =====
-- pkg/tomb/coffin.go: a store that is packed into one encrypted archive. The errors of the file
-- system itself are left out: what is there can be read, written and removed.
pub mod Shred
pub mod Run
pub mod Pack
use binpass.Prelude.{
  ℕ, Bool, true, false, not, ◌||◌, ◌&&◌, List, [], ◌∷◌, ◌++◌, Option, none, some, Bytes, codes,
  nat_eqb, nat_eq, ltb, contains, ◌==◌, bytes_eq, if◌then◌else◌, Result, ok, err, ◌>>=◌, ◌>>◌,
  guard,
}
use binpass.Text.{has_prefix}
use binpass.Tomb.Tree.{
  Folder, Node, file, link, folder, empty, entry, child, is_empty, with_entry, put_file, drop_entry,
}
use binpass.Tomb.Backends.{coffin_file, luks_image, bundle}

abbrev pub state_file : Bytes
state_file = codes "tomb.state"

-- `name[0] == '.'`
abbrev pub dotted : Bytes → Bool
dotted [] = false
dotted (c ∷ _) = nat_eqb c b'.'

abbrev pub containers : List Bytes
containers =
    coffin_file
    ∷ luks_image
    ∷ codes "store.luks.key.age"
    ∷ bundle
    ∷ codes "store.sparsebundle.key.age"
    ∷ []

-- `hasPlaintext`
unfoldable pub has_plaintext : Folder → Bool
has_plaintext empty = false
has_plaintext (entry n _ rest) =
    if dotted n || contains containers n then has_plaintext rest else true

-- An entry of a tar archive: a directory, a regular file with its content, or a link.
pub data TarEntry : Type 0 where
  tar_dir : Bytes → TarEntry
  tar_file : Bytes → Bytes → TarEntry
  tar_link : Bytes → TarEntry

abbrev unless_coffin : Bytes → TarEntry → List TarEntry
unless_coffin n e = if n == coffin_file then [] else e ∷ []

unfoldable mutual
  -- `writeTar` below a directory, of which the path from the root with a slash behind it is given.
  pub tar_folder : Bytes → Folder → List TarEntry
  tar_folder above empty = []
  tar_folder above (entry n x rest) =
      let this = tar_node above n x in
      let others = tar_folder above rest in if dotted (above ++ n) then others else this ++ others

  pub tar_node : Bytes → Bytes → Node → List TarEntry
  tar_node above n (file content) = unless_coffin n (tar_file (above ++ n) content)
  tar_node above n (link _) = []
  tar_node above n (folder d) =
      unless_coffin n (tar_dir (above ++ n)) ++ tar_folder ((above ++ n) ++ b'/' ∷ []) d

-- `writeTar`
unfoldable pub write_tar : Folder → List TarEntry
unfolding tar_folder tar_node
write_tar root = tar_folder [] root

-- The names that shredding leaves alone: those that the calls of `shredDir` preserve, and hidden
-- ones.
abbrev pub kept_name : Bytes → Bool
kept_name n = (n == coffin_file || n == state_file) || dotted n

-- What stands behind the links of a store: whether there is something when the turn of the link
-- comes, and its content.
pub record Links : Type 0 where
  pub resolves : Bytes → Bool
  pub read : Bytes → Option Bytes

module _ (links : Links) where
  unfoldable mutual
    -- `shredDir` below a directory, from the deepest entries up: a directory is removed only if
    -- nothing is left in it. That a file is overwritten before it is removed does not show here.
    pub shred_folder : Folder → Folder
    shred_folder empty = empty
    shred_folder (entry n x rest) = with_entry n (shred_node n x) (shred_folder rest)

    pub shred_node : Bytes → Node → Option Node
    shred_node n (file content) = if kept_name n then some (file content) else none
    shred_node n (link target) =
        if kept_name n || not (links.resolves target) then some (link target) else none
    shred_node n (folder d) =
        let left = shred_folder d in
        if kept_name n || not (is_empty left) then some (folder left) else none
