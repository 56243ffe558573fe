-- ===== src/Plugin/Guard.antt =====
-- pkg/plugin/guard.go: the capabilities of a plugin at work.
pub mod Laws
pub mod Traversal
use binpass.Prelude.{
  Bool, true, false, not, ◌&&◌, List, [], ◌∷◌, Bytes, if◌then◌else◌, Result, ok, err,
}
use binpass.Plugin.Manifest.{Capabilities}
use binpass.Plugin.Glob.{match_any}
use binpass.Plugin.Grant.{covers_hosts}

-- `Guard`
pub record Guard : Type 0 where
  pub name : Bytes
  pub caps : Capabilities
  pub active : Bool

-- The errors, which all are `ErrDenied`.
pub data Denied : Type 0 where
  no_decrypt not_granted : Denied

-- `CanRead`
unfoldable pub can_read : Guard → Bytes → Bool
can_read g name = if not g.active then true else match_any g.caps.read_paths name

-- `CanWrite`
unfoldable pub can_write : Guard → Bytes → Bool
can_write g name = if not g.active then true else match_any g.caps.write_paths name

-- `CanDecrypt`
unfoldable pub can_decrypt : Guard → Bytes → Bool
can_decrypt g name =
    if not g.active then true else g.caps.decrypt && match_any g.caps.read_paths name

allowed : Bool → Result Denied (Unit {0})
allowed true = ok tt
allowed false = err not_granted

-- `CheckRead`
unfoldable pub check_read : Guard → Bytes → Result Denied (Unit {0})
unfolding allowed can_read
check_read g name = allowed (can_read g name)

-- `CheckWrite`
unfoldable pub check_write : Guard → Bytes → Result Denied (Unit {0})
unfolding allowed can_write
check_write g name = allowed (can_write g name)

-- `CheckDecrypt`
unfoldable pub check_decrypt : Guard → Bytes → Result Denied (Unit {0})
unfolding allowed
check_decrypt g name =
    if not g.active
    then ok tt
    else if not g.caps.decrypt
    then err no_decrypt
    else allowed (match_any g.caps.read_paths name)

-- `CheckExec`
unfoldable pub check_exec : Guard → Bytes → Result Denied (Unit {0})
unfolding allowed
check_exec g bin = if not g.active then ok tt else allowed (covers_hosts g.caps.exec (bin ∷ []))

-- `CheckNetwork`
unfoldable pub check_network : Guard → Bytes → Result Denied (Unit {0})
unfolding allowed
check_network g host =
    if not g.active then ok tt else allowed (covers_hosts g.caps.network (host ∷ []))

readable : List Bytes → List Bytes → List Bytes
readable paths [] = []
readable paths (n ∷ names) =
    let rest = readable paths names in if match_any paths n then n ∷ rest else rest

-- `FilterReadable`
unfoldable pub filter_readable : Guard → List Bytes → List Bytes
unfolding readable
filter_readable g names = if not g.active then names else readable g.caps.read_paths names
