-- ===== src/Sync/Fsck.antt =====
-- pkg/sync/fsck.go: the check of a store against its state database, with `CheckStateLocation` of
-- pkg/sync/statedb.go.
pub mod Laws
use binpass.Prelude.{
  ℕ, ◌-◌, Bool, true, false, not, ◌&&◌, ◌||◌, List, [], ◌∷◌, ◌++◌, Option, none, some, Bytes, codes,
  nat_eqb, ◌==◌, bytes_eq, if◌then◌else◌, length, contains, nat_eq,
}
use binpass.Prelude.Dict.{Dict, lookup, insert}
use binpass.Text.{has_prefix, take}
use binpass.Sync.State.{FilePath, Digest, FileState, Snapshot, no_digest}
use binpass.Sync.Scan.{Node, Entries, file, dir, end, entry, extension, joined}

-- The texts of `Issue`.
pub data Issue : Type 0 where
  state_in_store untracked size_drift hash_drift orphaned conflict_of_orphan no_recipients : Issue

-- `FsckResult`
pub record FsckResult : Type 0 where
  pub path : Bytes
  pub issue : Issue
  pub severity : Bytes

-- `diskEntry`
pub record DiskEntry : Type 0 where
  pub size : ℕ
  pub hash : Digest

abbrev pub warning : Bytes → Issue → FsckResult
warning path issue = record { path = path; issue = issue; severity = codes "warning" }

-- `filepath.Ext` of a path: what follows the last dot, if no slash does.
unfoldable pub path_extension : FilePath → Bytes
unfolding extension
path_extension path = let ext = extension path in if contains ext b'/' then [] else ext

abbrev content_hash : (Bytes → Digest) → Option Bytes → Digest
content_hash digest none = no_digest
content_hash digest (some content) = digest content

-- The callback of the walk on a file.
disk_file :
    (Bytes → Digest)
    → FilePath
    → ℕ
    → Option Bytes
    → Dict FilePath DiskEntry
    → Dict FilePath DiskEntry
disk_file digest rel size content files =
    if has_prefix rel (codes ".")
    then files
    else if not (path_extension rel == codes ".gpg") && not (path_extension rel == codes ".age")
    then files
    else insert rel (record { size = size; hash = content_hash digest content }) files

-- `scanDisk`: all directories are entered.
unfoldable mutual
  unfolding disk_file path_extension

  pub disk_node :
      (Bytes → Digest) → FilePath → Node → Dict FilePath DiskEntry → Dict FilePath DiskEntry
  disk_node digest rel (file size time content) files = disk_file digest rel size content files
  disk_node digest rel (dir es) files = scan_disk digest rel es files

  pub scan_disk :
      (Bytes → Digest) → FilePath → Entries → Dict FilePath DiskEntry → Dict FilePath DiskEntry
  scan_disk digest parent end files = files
  scan_disk digest parent (entry name node es) files =
      scan_disk digest parent es (disk_node digest (joined parent name) node files)

-- `CheckStateLocation` on the path of the state's directory from the store's, none for an error of
-- `filepath.Rel`. It holds where the function returns no error.
unfoldable pub check_state_location : Option Bytes → Bool
check_state_location none = true
check_state_location (some rel) =
    not
      (rel == codes "." || (not (has_prefix rel (codes "/")) && not (has_prefix rel (codes ".."))))

-- A digest that is not known tells of no drift.
abbrev pub hash_drifts : DiskEntry → FileState → Bool
hash_drifts info state =
    not (state.hash == no_digest) && (not (info.hash == no_digest) && not (info.hash == state.hash))

drifts : FilePath → DiskEntry → Option FileState → List FsckResult
drifts path info none = warning path untracked ∷ []
drifts path info (some state) =
    (if nat_eqb info.size state.size then [] else warning path size_drift ∷ [])
    ++ (if hash_drifts info state then warning path hash_drift ∷ [] else [])

check_disk : Dict FilePath DiskEntry → Snapshot → List FsckResult
check_disk [] base = []
check_disk ((path, info) ∷ files) base =
    drifts path info (lookup path base) ++ check_disk files base

conflict_files : Bytes → Dict FilePath DiskEntry → List FsckResult
conflict_files prefix [] = []
conflict_files prefix ((path, _) ∷ files) =
    let rest = conflict_files prefix files in
    if has_prefix path prefix then warning path conflict_of_orphan ∷ rest else rest

-- The path without its extension, and the marker of the device that saw it last.
conflict_prefix : FilePath → FileState → Bytes
conflict_prefix path state =
    take (length path - length (path_extension path)) path ++ codes ".conflict-" ++ state.device

orphans : FilePath → FileState → Option DiskEntry → Dict FilePath DiskEntry → List FsckResult
orphans path state (some _) files = []
orphans path state none files =
    warning path orphaned ∷ conflict_files (conflict_prefix path state) files

check_base : Snapshot → Dict FilePath DiskEntry → List FsckResult
check_base [] files = []
check_base ((path, state) ∷ base) files =
    orphans path state (lookup path files) files ++ check_base base files

check_recipients : Bool → Bool → Dict FilePath DiskEntry → List FsckResult
check_recipients gpg_id age_recipients [] = []
check_recipients gpg_id age_recipients (_ ∷ _) =
    if gpg_id || age_recipients
    then []
    else warning (codes ".gpg-id / .age-recipients") no_recipients ∷ []

check_location : Option Bytes → List FsckResult
check_location location =
    if check_state_location location
    then []
    else record { path = codes "state.db"; issue = state_in_store; severity = codes "error" } ∷ []

-- `Fsck`, once the disk has been scanned and the base loaded. The two flags say whether the files of
-- recipients are there.
unfoldable pub fsck :
    Option Bytes → Bool → Bool → Dict FilePath DiskEntry → Snapshot → List FsckResult
unfolding check_location check_state_location check_disk drifts check_base orphans conflict_files
    conflict_prefix path_extension check_recipients
fsck location gpg_id age_recipients files base =
    check_location location
    ++ (check_disk files base
        ++ (check_base base files ++ check_recipients gpg_id age_recipients files))
