-- ===== src/Sync/Resolve.antt =====
-- internal/cli/conflicts.go: resolving a conflict in a store.
pub mod Local
pub mod Kept
use binpass.Prelude.{
  true, List, [], ◌∷◌, Option, none, some, Bytes, codes, ◌==◌, bytes_eq, if◌then◌else◌, Result, ok,
  err,
}
use binpass.Storage.{Disk}
use binpass.Store.{Backends, StoreError, exists, remove}
use binpass.Store.Transfer.{transfer}
use binpass.Sync.ConflictName.{conflict_to_original}

pub data ResolveError : Type 0 where
  store_error : StoreError → ResolveError
  unknown_strategy : ResolveError

-- An error of the store leaves the files as they are.
abbrev pub resolved : Disk → Result StoreError Disk → Disk × Option ResolveError
resolved d (ok e) = (e, none)
resolved d (err x) = (d, some (store_error x))

abbrev pub reported : Disk × Option StoreError → Disk × Option ResolveError
reported (d, none) = (d, none)
reported (d, some x) = (d, some (store_error x))

-- What is under the original name makes room.
unfoldable pub make_room : Backends → Bytes → Disk → Result StoreError Disk
unfolding exists remove
make_room s original d = if exists s original d then remove s original d else ok d

-- The conflict is moved to the original name, in the files that are left.
unfoldable pub moved_into :
    Backends → Bytes → Bytes → Disk → Result StoreError Disk → Disk × Option ResolveError
unfolding transfer
moved_into s path original d (err x) = (d, some (store_error x))
moved_into s path original d (ok e) = reported (transfer s path original true e)

unfoldable pub resolve_local : Backends → Bytes → Disk → Disk × Option ResolveError
unfolding make_room moved_into conflict_to_original
resolve_local s path d =
    let original = conflict_to_original path in
    moved_into s path original d (make_room s original d)

-- `runConflictsResolve`; the strategy is `local` where none is given.
unfoldable pub resolve_conflict : Backends → Bytes → Bytes → Disk → Disk × Option ResolveError
unfolding resolve_local remove
resolve_conflict s path strategy d =
    if strategy == codes "local"
    then resolve_local s path d
    else if strategy == codes "remote"
    then resolved d (remove s path d)
    else if strategy == codes "both"
    then (d, none)
    else (d, some unknown_strategy)
