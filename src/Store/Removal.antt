-- ===== src/Store/Removal.antt =====
-- Remove of pkg/store/store.go: what is left of an entry that is removed.
use binpass.Prelude.{
  Bool, true, false, not, ◌&&◌, ◌||◌, List, [], ◌∷◌, ◌++◌, Option, none, some, Bytes, ◌==◌,
  bytes_eq, ok, ◌≡◌, refl, ◌∙◌, arith,
}
use binpass.Prelude.Dict.{lookup, erase, lookup-erase}
use binpass.Paths.{rel}
use binpass.Storage.{Disk, first_file, found}
use binpass.Store.{Backends, exts, exists, remove, is_ok}
use binpass.Store.Target.{find-inside}

abbrev pub is_there : Option Bytes → Bool
is_there none = false
is_there (some _) = true

-- Whether an entry has a file but the one at a path.
unfoldable pub other_file : Bytes → Bytes → List Bytes → Disk → Bool
other_file p path [] d = false
other_file p path (e ∷ es) d =
    (not (p ++ e == path) && is_there (lookup (p ++ e) d)) || other_file p path es d

first_file-erase :
    (p path : Bytes) (es : List Bytes) (d : Disk)
    → is_there (first_file p es (erase path d)) ≡ other_file p path es d
unfolding first_file other_file
first_file-erase p path [] d = refl
first_file-erase p path (e ∷ es) d =
    ground (arith, lookup-erase (p ++ e) path d, first_file-erase p path es d)

is_ok-found : (o : Option Bytes) → is_ok (found o) ≡ is_there o
is_ok-found none = refl
is_ok-found (some _) = refl

-- Removing an entry removes the first of its files, and the entry exists afterwards exactly if it has
-- another one.
pub remove_lem :
    (s : Backends) (name p path : Bytes) (d : Disk)
    → rel name ≡ some p
    → first_file p (exts s.all) d ≡ some path
    → (remove s name d ≡ ok (erase path d))
      × (exists s name (erase path d) ≡ other_file p path (exts s.all) d)
unfolding remove exists
remove_lem s name p path d inside there = (
  rw (find-inside name (exts s.all) d p inside, there) refl,
  rw (find-inside name (exts s.all) (erase path d) p inside) (
      is_ok-found (first_file p (exts s.all) (erase path d))
      ∙ first_file-erase p path (exts s.all) d),
)
