-- ===== src/Store.antt =====
-- pkg/store/store.go: the entries of a store over its files and the crypto backends. The errors of
-- the operating system are left out: a file that is there can be read, and any file can be written.
pub mod Search
pub mod Target
pub mod Laws
pub mod Transfer
pub mod Removal
pub mod Refinement
pub mod Listing
pub mod Renewal
use binpass.Prelude.{
  ℕ, Bool, true, false, not, ◌&&◌, ◌||◌, List, [], ◌∷◌, ◌++◌, Option, none, some, Bytes, codes,
  ◌==◌, bytes_eq, if◌then◌else◌, map, Result, ok, err, ◌>>=◌,
}
use binpass.Prelude.Dict.{lookup, insert, erase}
use binpass.Secret.{Secret}
use binpass.Storage.{Disk, FindError, outside, not_exist, path_of, dir_path, dir_of, ext_of, find}

-- `Crypto`, an interface, of which the program has two implementations. The recipients of a directory
-- are read from the files of the store.
pub record Backend : Type 0 where
  pub ext : Bytes
  pub recipients : Disk → Bytes → Option (List Bytes)
  pub encrypt : Bytes → List Bytes → Option Bytes
  pub decrypt : Bytes → Option Bytes

-- The backends of a `Store`, told apart by their extensions, and the one for new entries.
pub record Backends : Type 0 where
  pub all : List Backend
  pub first : Backend

pub data StoreError : Type 0 where
  outside_store not_found exists_already no_backend no_recipients encrypt_failed decrypt_failed
        unreadable refused :
      StoreError

-- `exts`
abbrev pub exts : List Backend → List Bytes
exts [] = []
exts (b ∷ bs) = b.ext ∷ exts bs

-- `backendFor`
unfoldable pub backend_for : List Backend → Bytes → Result StoreError Backend
backend_for [] ext = err no_backend
backend_for (b ∷ bs) ext = if b.ext == ext then ok b else backend_for bs ext

abbrev pub as_error : FindError → StoreError
as_error outside = outside_store
as_error not_exist = not_found

abbrev pub lifted : {A : Type 0} → Result FindError A → Result StoreError A
lifted (ok a) = ok a
lifted (err e) = err (as_error e)

abbrev pub or_error : {A : Type 0} → StoreError → Option A → Result StoreError A
or_error e none = err e
or_error e (some a) = ok a

-- `Exists`
abbrev pub is_ok : {A : Type 0} → Result FindError A → Bool
is_ok (ok _) = true
is_ok (err _) = false

unfoldable pub exists : Backends → Bytes → Disk → Bool
exists s name d = is_ok (find name (exts s.all) d)

-- The secret in a file.
unfoldable pub opened : Backends → Disk → Bytes → Result StoreError Secret
opened s d path = do
  backend ← backend_for s.all (ext_of path)
  content ← or_error unreadable (lookup path d)
  plaintext ← or_error decrypt_failed (backend.decrypt content)
  ok (record { raw = plaintext })

-- `Get`
unfoldable pub get : Backends → Bytes → Disk → Result StoreError Secret
unfolding opened
get s name d = lifted (find name (exts s.all) d) >>= opened s d

-- A backend, where it has recipients.
abbrev chosen :
    Option (List Bytes) → Backend → Result StoreError Backend → Result StoreError Backend
chosen none b later = later
chosen (some _) b later = ok b

-- The first backend but the default that has recipients for a directory.
other_for : List Backend → Backend → Bytes → Disk → Result StoreError Backend
other_for [] default dir d = err no_recipients
other_for (b ∷ bs) default dir d =
    let later = other_for bs default dir d in
    if b.ext == default.ext then later else chosen (b.recipients d dir) b later

default_for : Backends → Bytes → Disk → Result StoreError Backend
default_for s dir d = chosen (s.first.recipients d dir) s.first (other_for s.all s.first dir d)

-- `backendForNew`
unfoldable pub backend_for_new : Backends → Bytes → Disk → Result StoreError Backend
unfolding default_for other_for
backend_for_new s name d = do dir ← lifted (dir_path name); default_for s (dir_of dir) d

-- The path and the backend of an entry that is there, or of one that is not.
target_of : Backends → Bytes → Disk → Result FindError Bytes → Result StoreError (Bytes × Backend)
target_of s name d (ok path) = do backend ← backend_for s.all (ext_of path); ok (path, backend)
target_of s name d (err _) = do
  backend ← backend_for_new s name d
  path ← lifted (path_of name backend.ext)
  ok (path, backend)

-- `target`
unfoldable pub target : Backends → Bytes → Disk → Result StoreError (Bytes × Backend)
unfolding target_of
target s name d = target_of s name d (find name (exts s.all) d)

-- What a secret is encrypted to for a path, written there.
unfoldable pub write_at : Backend → Bytes → Secret → Disk → Result StoreError Disk
write_at backend path sec d = do
  rcp ← or_error no_recipients (backend.recipients d (dir_of path))
  content ← or_error encrypt_failed (backend.encrypt sec.raw rcp)
  ok (insert path content d)

-- `Set`
unfoldable pub set : Backends → Bytes → Secret → Disk → Result StoreError Disk
unfolding target write_at
set s name sec d = do (path, backend) ← target s name d; write_at backend path sec d

-- `SetNew`
unfoldable pub set_new : Backends → Bytes → Secret → Disk → Result StoreError Disk
unfolding exists set
set_new s name sec d = if exists s name d then err exists_already else set s name sec d

-- `Remove`: every error of the search is reported as a missing entry.
abbrev pub as_missing : Result FindError Bytes → Result StoreError Bytes
as_missing (ok path) = ok path
as_missing (err _) = err not_found

unfoldable pub remove : Backends → Bytes → Disk → Result StoreError Disk
remove s name d = do path ← as_missing (find name (exts s.all) d); ok (erase path d)

-- `writeWith`
unfoldable pub write_with : Bytes → Secret → Backend → Disk → Result StoreError Disk
unfolding write_at
write_with name sec backend d = do
  path ← lifted (path_of name backend.ext)
  write_at backend path sec d
