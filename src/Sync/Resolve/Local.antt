-- ===== src/Sync/Resolve/Local.antt =====
-- internal/cli/conflicts.go: what the strategy `local` makes of an entry.
use binpass.Prelude.{true, false, some, Bytes, codes, bytes_eq, ◌≡◌, refl, ap, ◌∙◌}
use binpass.Prelude.Dict.{erase}
use binpass.Paths.{rel}
use binpass.Storage.{Disk, first_file, is_dir}
use binpass.Store.{Backends, exts, exists, not_found}
use binpass.Store.Removal.{other_file, remove_lem}
use binpass.Store.Target.{find-inside}
use binpass.Store.Transfer.{transfer}
use binpass.Sync.ConflictName.{is_conflict_file, conflict_to_original}
use binpass.Sync.Resolve.{resolve_conflict, resolve_local, moved_into, make_room, store_error}

pub local_lem :
    (s : Backends) (path : Bytes) (d : Disk)
    → resolve_conflict s path (codes "local") d ≡ resolve_local s path d
unfolding resolve_conflict bytes_eq
local_lem s path d = refl

same_name : (path : Bytes) → is_conflict_file path ≡ false → conflict_to_original path ≡ path
unfolding conflict_to_original
same_name path plain = rw plain refl

pub there-exists :
    (s : Backends) (path p file : Bytes) (d : Disk)
    → rel path ≡ some p
    → first_file p (exts s.all) d ≡ some file
    → exists s path d ≡ true
unfolding exists
there-exists s path p file d inside there =
    rw (find-inside path (exts s.all) d p inside, there) refl

transfer_missing :
    (s : Backends) (path : Bytes) (d : Disk)
    → is_dir path d ≡ false
    → exists s path d ≡ false
    → transfer s path path true d ≡ (d, some not_found)
unfolding transfer
transfer_missing s path d folder gone = rw (folder, gone) refl

-- Resolving an entry that is no conflict by the strategy `local`, which is the one that is taken
-- where none is given, removes the entry and then reports that it is not there; the entry has one
-- file, and there is no folder of its name.
pub resolve_local_loses :
    (s : Backends) (path p file : Bytes) (d : Disk)
    → is_conflict_file path ≡ false
    → rel path ≡ some p
    → first_file p (exts s.all) d ≡ some file
    → other_file p file (exts s.all) d ≡ false
    → is_dir path (erase file d) ≡ false
    → (resolve_conflict s path (codes "local") d ≡ (erase file d, some (store_error not_found)))
      × (exists s path d ≡ true)
      × (exists s path (resolve_conflict s path (codes "local") d).0 ≡ false)
resolve_local_loses s path p file d plain inside there alone folder =
    let (removed, left) = remove_lem s path p file d inside there in
    let here = there-exists s path p file d inside there in
    let gone = left ∙ alone in
    let run : resolve_conflict s path (codes "local") d
        ≡ (erase file d, some (store_error not_found)) =
      local_lem s path d
      ∙ unfold resolve_local make_room moved_into in
        rw (same_name path plain, here, removed, transfer_missing s path (erase file d) folder gone)
          refl in
    (run, here, ap (λ r. exists s path r.0) run ∙ gone)
