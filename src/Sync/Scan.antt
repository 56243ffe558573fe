-- ===== src/Sync/Scan.antt =====
-- pkg/sync/scan.go: the snapshot of a store on disk, and the paths that differ from a base.
pub mod Laws
use binpass.Prelude.{
  ℕ, Bool, true, false, not, ◌&&◌, ◌||◌, List, [], ◌∷◌, ◌++◌, Option, none, some, Bytes, codes,
  nat_eqb, ◌==◌, bytes_eq, if◌then◌else◌, contains, drop,
}
use binpass.Prelude.Dict.{Dict, lookup, insert, keys}
use binpass.Text.{last_index}
use binpass.Sync.Version.{DeviceId, VersionVector, increment}
use binpass.Sync.State.{FilePath, Time, Digest, FileState, Snapshot}
use binpass.Sync.Merge.{bytes_ltb, all_paths}

-- A directory tree, in the lexical order in which `filepath.WalkDir` visits it. A file that cannot
-- be read has no content.
mutual
  pub data Node : Type 0 where
    file : ℕ → Time → Option Bytes → Node
    dir : Entries → Node

  pub data Entries : Type 0 where
    end : Entries
    entry : Bytes → Node → Entries → Entries

-- A file that the walk takes up.
pub record DiskFile : Type 0 where
  pub rel : FilePath
  pub size : ℕ
  pub mod_time : Time
  pub content : Option Bytes

-- `filepath.Ext` of a name without a slash.
unfoldable pub extension : Bytes → Bytes
unfolding last_index
extension name = elim (last_index b'.' name) [ none ↦ [] | some dot ↦ drop dot name ]

-- `isContainer`
unfoldable pub is_container : Bytes → Bool
is_container name =
    contains
      (codes "store.coffin.age"
        ∷ codes "store.luks"
        ∷ codes "store.luks.key.age"
        ∷ codes "store.sparsebundle"
        ∷ codes "store.sparsebundle.key.age"
        ∷ [])
      name

-- `name[0] == '.'`; no name on a disk is empty.
unfoldable pub is_hidden : Bytes → Bool
is_hidden [] = false
is_hidden (c ∷ name) = nat_eqb c b'.'

abbrev pub joined : FilePath → Bytes → FilePath
joined [] name = name
joined (c ∷ parent) name = (c ∷ parent) ++ (b'/' ∷ name)

-- The walk: hidden files are passed over, hidden directories are not entered, and files that are
-- neither containers nor carry one of the extensions are left out.
unfoldable mutual
  unfolding is_hidden is_container extension

  pub walk_node : List Bytes → FilePath → Bytes → Node → List DiskFile
  walk_node exts rel name (file size time content) =
      if is_container name || contains exts (extension name)
      then record { rel = rel; size = size; mod_time = time; content = content } ∷ []
      else []
  walk_node exts rel name (dir es) = walk exts rel es

  pub walk : List Bytes → FilePath → Entries → List DiskFile
  walk exts parent end = []
  walk exts parent (entry name node es) =
      let rest = walk exts parent es in
      let here = walk_node exts (joined parent name) name node in
      if is_hidden name then rest else here ++ rest

-- A state whose file has changed, or is new.
abbrev changed_state : DiskFile → DeviceId → Digest → VersionVector → FileState
changed_state f device h v = record {
  path = f.rel;
  hash = h;
  size = f.size;
  mod_time = f.mod_time;
  version = v;
  remote_rev = [];
  device = device;
}

-- `VersionVector{device: 1}`
abbrev pub first_version : DeviceId → VersionVector
first_version device = (device, 1) ∷ []

-- The state of a file whose size or time differs, by its digest.
hashed_state : DiskFile → DeviceId → Option FileState → Digest → FileState
hashed_state f device none h = changed_state f device h (first_version device)
hashed_state f device (some base) h =
    if base.hash == h
    then record base { size = f.size; mod_time = f.mod_time }
    else changed_state f device h (increment base.version device 1)

abbrev same_metadata : DiskFile → Option FileState → Bool
same_metadata f none = false
same_metadata f (some base) = nat_eqb base.size f.size && nat_eqb base.mod_time f.mod_time

-- The parameter is the blake3 digest.
module _ (digest : Bytes → Digest) where
  after_hashing : DiskFile → DeviceId → Option FileState → Option Bytes → Option FileState
  after_hashing f device base none = none
  after_hashing f device base (some content) = some (hashed_state f device base (digest content))

  -- What the walk's callback stores for a file, or the error of reading it.
  unfoldable pub scan_file : Snapshot → DeviceId → DiskFile → Option FileState
  unfolding after_hashing hashed_state
  scan_file base device f =
      if same_metadata f (lookup f.rel base)
      then lookup f.rel base
      else after_hashing f device (lookup f.rel base) f.content

  scan_files : Snapshot → DeviceId → List DiskFile → Snapshot → Option Snapshot
  scan_files base device [] out = some out
  scan_files base device (f ∷ fs) out = elim (scan_file base device f) [
    | none ↦ none
    | some state ↦ scan_files base device fs (insert f.rel state out)
  ]

  -- `Scan`
  unfoldable pub scan : Entries → Snapshot → DeviceId → List Bytes → Option Snapshot
  unfolding scan_files scan_file walk
  scan tree base device exts = scan_files base device (walk exts [] tree) []

-- `sort.Strings`
insert_path : FilePath → List FilePath → List FilePath
insert_path p [] = p ∷ []
insert_path p (q ∷ qs) =
    let rest = insert_path p qs in if bytes_ltb q p then q ∷ rest else p ∷ q ∷ qs

sort_paths : List FilePath → List FilePath
sort_paths [] = []
sort_paths (p ∷ ps) = insert_path p (sort_paths ps)

differs : Option FileState → Option FileState → Bool
differs none c = true
differs (some b) none = true
differs (some b) (some c) = not (b.hash == c.hash)

differing : Snapshot → Snapshot → List FilePath → List FilePath
differing base current [] = []
differing base current (p ∷ ps) =
    let rest = differing base current ps in
    if differs (lookup p base) (lookup p current) then p ∷ rest else rest

-- `Diff`
unfoldable pub diff : Snapshot → Snapshot → List FilePath
unfolding differing differs sort_paths insert_path
diff base current = sort_paths (differing base current (all_paths base current []))
