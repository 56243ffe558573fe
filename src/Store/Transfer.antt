-- ===== src/Store/Transfer.antt =====
-- pkg/store/transfer.go, RemoveDir of pkg/store/store.go: entries and folders that are moved or
-- copied.
pub mod Laws
pub mod Single
pub mod Destination
use binpass.Prelude.{
  ℕ, ◌+◌, ◌&&◌, ◌||◌, Bool, true, false, not, List, [], ◌∷◌, ◌++◌, Option, none, some, Bytes, codes,
  ◌==◌, bytes_eq, if◌then◌else◌, Result, ok, err, ◌>>=◌, length, nat_eqb, nat_eq, contains, drop,
}
use binpass.Prelude.Dict.{lookup, insert, erase}
use binpass.Text.{ends_in, trim_last, trim_prefix, take, last_index}
use binpass.Secret.{Secret}
use binpass.Storage.{
  Disk, FindError, path_of, dir_path, dir_of, ext_of, find, is_dir, Entry, entries, drop_below,
}
use binpass.Store.{
  Backend, Backends, StoreError, exts, backend_for, lifted, or_error, exists, get, write_with,
  no_recipients, not_found, refused, unreadable,
}

-- `filepath.Base` of a path that does not end in a slash.
abbrev after_slash : Bytes → Option ℕ → Bytes
after_slash p none = p
after_slash p (some i) = drop (i + 1) p

without_slashes : Bytes → Bytes
without_slashes [] = []
without_slashes (c ∷ s) =
    let rest = without_slashes s in if rest == [] && nat_eqb c b'/' then [] else c ∷ rest

base_of : Bytes → Bytes
base_of p =
    let q = without_slashes p in
    if p == [] then codes "." else if q == [] then codes "/" else after_slash q (last_index b'/' q)

-- A folder's name, a slash, and the last element of another name.
abbrev into : Bytes → Bytes → Bytes
into to from = trim_last b'/' to ++ b'/' ∷ base_of from

-- `resolveDest`
unfoldable pub resolve_dest : Bytes → Bytes → Disk → Bytes
unfolding base_of without_slashes is_dir
resolve_dest from to d = if ends_in b'/' to || is_dir to d then into to from else to

-- A recipient taken out of a list.
taken_out : Bytes → List Bytes → Option (List Bytes)
taken_out r [] = none
taken_out r (x ∷ xs) =
    let rest = taken_out r xs in
    if r == x then some xs else (elim rest [ none ↦ none | some ys ↦ some (x ∷ ys) ])

-- Whether each of the recipients is among the others, as often as it stands here.
all_among : List Bytes → List Bytes → Bool
all_among [] seen = true
all_among (r ∷ rs) seen = elim (taken_out r seen) [ none ↦ false | some left ↦ all_among rs left ]

-- `sameRecipients`
unfoldable pub same_recipients : Backend → Bytes → Bytes → Disk → Result StoreError Bool
unfolding all_among taken_out
same_recipients b a c d = if a == c then ok true else (do
  ra ← or_error no_recipients (b.recipients d a)
  rc ← or_error no_recipients (b.recipients d c)
  ok (nat_eqb (length ra) (length rc) && all_among rc ra))

-- The ciphertext moved or copied as it is.
abbrev carried : Bool → Bytes → Bytes → Disk → Result StoreError Disk
carried remove src dst d = do
  content ← or_error unreadable (lookup src d)
  ok (if remove then insert dst content (erase src d) else insert dst content d)

abbrev rewritten :
    Backends → Bool → Bytes → Bytes → Secret → Backend → Disk → Result StoreError Disk
rewritten s remove src to sec b d = do
  written ← write_with to sec b d
  ok (if remove then erase src written else written)

-- `transferEntry`
unfoldable pub transfer_entry : Backends → Bytes → Bytes → Bool → Disk → Result StoreError Disk
unfolding same_recipients
transfer_entry s from to remove d = do
  sec ← get s from d
  src ← lifted (find from (exts s.all) d)
  backend ← backend_for s.all (ext_of src)
  dst ← lifted (path_of to backend.ext)
  same ← same_recipients backend (dir_of src) (dir_of dst) d
  if same then carried remove src dst d else rewritten s remove src to sec backend d

-- `RemoveDir`
unfoldable pub remove_dir : Bytes → Disk → Result StoreError Disk
remove_dir name d = do
  dir ← lifted (dir_path name)
  if dir == codes "." then err refused else ok (erase dir (drop_below dir d))

-- A transfer that may fail half way leaves what it has done.
abbrev pub after : Disk → Result StoreError Disk → Disk × Option StoreError
after d (ok e) = (e, none)
after d (err e) = (d, some e)

abbrev relative_to : Bytes → Bytes → Bytes
relative_to from name = trim_prefix name (trim_last b'/' from ++ b'/' ∷ [])

next_entry :
    (Disk → Disk × Option StoreError) → Disk → Result StoreError Disk → Disk × Option StoreError
next_entry rest d (ok e) = rest e
next_entry rest d (err e) = (d, some e)

transfer_all : Backends → Bytes → Bytes → Bool → List Entry → Disk → Disk × Option StoreError
transfer_all s from dest remove [] d = (d, none)
transfer_all s from dest remove (e ∷ es) d =
    next_entry (transfer_all s from dest remove es) d
      (transfer_entry s e.name (dest ++ b'/' ∷ relative_to from e.name) remove d)

removed_too : Bool → Bytes → Disk × Option StoreError → Disk × Option StoreError
removed_too remove from (d, some e) = (d, some e)
removed_too remove from (d, none) = if remove then after d (remove_dir from d) else (d, none)

entries_moved :
    Backends
    → Bytes
    → Bytes
    → Bool
    → Disk
    → Result FindError (List Entry)
    → Disk × Option StoreError
entries_moved s from to remove d (err e) = after d (lifted (err e))
entries_moved s from to remove d (ok es) =
    removed_too remove from (transfer_all s from (resolve_dest from to d) remove es d)

-- `transferDir`
unfoldable pub transfer_dir : Backends → Bytes → Bytes → Bool → Disk → Disk × Option StoreError
unfolding entries_moved removed_too transfer_all next_entry resolve_dest transfer_entry remove_dir
transfer_dir s from to remove d = entries_moved s from to remove d (entries from (exts s.all) d)

-- `transfer`, which is `Move` where it removes and `Copy` where it does not.
unfoldable pub transfer : Backends → Bytes → Bytes → Bool → Disk → Disk × Option StoreError
unfolding transfer_dir transfer_entry resolve_dest is_dir
transfer s from to remove d =
    if is_dir from d
    then transfer_dir s from to remove d
    else if not (exists s from d)
    then (d, some not_found)
    else after d (transfer_entry s from (resolve_dest from to d) remove d)
