-- ===== src/Tomb/Backends.antt =====
-- DetectBackend, HasContainer and SelectBackend of pkg/tomb/tomb.go: the kinds of container.
use binpass.Prelude.{
  Bool, true, false, Option, none, some, [], Bytes, codes, ◌==◌, bytes_eq, if◌then◌else◌, Result,
  ok, err,
}
use binpass.Tomb.Tree.{Folder, child}
use binpass.Tomb.State.{Backend, coffin, luks, sparse_bundle}

abbrev pub is_some {ℓ} : {A : Type ℓ} → Option A → Bool
is_some none = false
is_some (some _) = true

abbrev pub coffin_file : Bytes
coffin_file = codes "store.coffin.age"

abbrev pub luks_image : Bytes
luks_image = codes "store.luks"

abbrev pub bundle : Bytes
bundle = codes "store.sparsebundle"

-- `DetectBackend`
unfoldable pub detect_backend : Folder → Option Backend
detect_backend d =
    if is_some (child coffin_file d)
    then some coffin
    else if is_some (child luks_image d)
    then some luks
    else if is_some (child bundle d)
    then some sparse_bundle
    else none

-- `HasContainer`
unfoldable pub has_container : Folder → Bool
unfolding detect_backend
has_container d = is_some (detect_backend d)

pub data SelectError : Type 0 where
  unsupported unknown_backend : SelectError

-- `SelectBackend`, with the backend that is constructed, for the name of an operating system.
unfoldable pub select_backend : Bytes → Bytes → Result SelectError Backend
select_backend goos want =
    if want == codes "coffin"
    then ok coffin
    else if want == []
    then ok coffin
    else if want == codes "luks"
    then (if goos == codes "linux" then ok luks else err unsupported)
    else if want == codes "sparsebundle"
    then (if goos == codes "darwin" then ok sparse_bundle else err unsupported)
    else err unknown_backend
