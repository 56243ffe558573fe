-- ===== src/Tests/Resolving.antt =====
-- Runs of the resolution of conflicts.
use binpass.Prelude.{true, false, [], ◌∷◌, none, some, codes, bytes_eq, nat_eq, ◌≡◌, refl, arith}
use binpass.Prelude.Dict.{lookup, insert, erase}
use binpass.Paths.{rel, escapes, clean}
use binpass.Text.{trim_prefix, trim_space, ends_in, trim_last, last_index, take}
use binpass.Storage.{Disk, first_file, is_dir, find, dir_path, ext_of, path_of, dir_of}
use binpass.Store.Removal.{other_file}
use binpass.Store.{exists, get, not_found, backend_for}
use binpass.Sync.Resolve.{resolve_conflict, store_error}
use binpass.Sync.Resolve.Local.{resolve_local_loses}
use binpass.Sync.Resolve.Kept.{resolve_local_keeps}
use binpass.Sync.ConflictName.{conflict_to_original, is_conflict_file}
use binpass.Tests.Stores.{both, both-IsSound, files}

-- An entry and a conflict file of it.
abbrev diverged : Disk
diverged = (codes "a.age", codes "r") ∷ (codes "a.conflict-d-1.age", codes "l") ∷ []

abbrev settled : Disk
settled = (codes "a.age", codes "l") ∷ []

-- A folder has the name of the entry.
abbrev beside_folder : Disk
beside_folder = (codes "a/x.age", codes "x") ∷ diverged

resolve_local_loses_example :
    (resolve_conflict both (codes "b") (codes "local") files
      ≡ (erase (codes "b.age") files, some (store_error not_found)))
    × (exists both (codes "b") files ≡ true)
    × (exists both (codes "b") (resolve_conflict both (codes "b") (codes "local") files).0 ≡ false)
unfolding rel trim_prefix trim_space escapes bytes_eq nat_eq clean conflict_to_original
    is_conflict_file first_file lookup other_file is_dir resolve_conflict find erase exists dir_path
    get backend_for ext_of path_of ends_in trim_last insert last_index take dir_of
resolve_local_loses_example =
    resolve_local_loses both (codes "b") (codes "b") (codes "b.age") files refl refl refl refl refl

resolve_local_keeps_example :
    get both (conflict_to_original (codes "a.conflict-d-1")) settled
    ≡ get both (codes "a.conflict-d-1") diverged
unfolding rel trim_prefix trim_space escapes bytes_eq nat_eq clean conflict_to_original
    is_conflict_file first_file lookup other_file is_dir resolve_conflict find erase exists dir_path
    get backend_for ext_of path_of ends_in trim_last insert last_index take dir_of
resolve_local_keeps_example =
    resolve_local_keeps both 4 (codes "a.conflict-d-1") (codes "a") (codes "a.conflict-d-1")
      (codes "a.age") diverged settled both-IsSound (refl, (refl, tt)) refl refl (ground arith) refl
      refl refl refl refl refl

-- The conflict of an entry beside a folder of its name is moved into the folder.
resolve_beside_folder_test :
    resolve_conflict both (codes "a.conflict-d-1") (codes "local") beside_folder
    ≡ ((codes "a/x.age", codes "x") ∷ (codes "a/a.conflict-d-1.age", codes "l") ∷ [], none)
unfolding rel trim_prefix trim_space escapes bytes_eq nat_eq clean conflict_to_original
    is_conflict_file first_file lookup other_file is_dir resolve_conflict find erase exists dir_path
    get backend_for ext_of path_of ends_in trim_last insert last_index take dir_of
resolve_beside_folder_test = refl
