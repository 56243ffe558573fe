-- ===== src/Store/Listing.antt =====
-- pkg/store/store.go: the entries of a store as a whole, listed, searched and encrypted anew.
use binpass.Prelude.{
  Bool, true, false, List, [], ◌∷◌, Option, none, some, Bytes, ◌==◌, bytes_eq, if◌then◌else◌, map,
  Result, ok, err, ◌>>=◌,
}
use binpass.Prelude.Dict.{erase}
use binpass.Text.{contains_text}
use binpass.Secret.{lines}
use binpass.Storage.{Disk, Entry, entries, dir_path, dir_of, is_dir}
use binpass.Store.{
  Backend, Backends, StoreError, no_recipients, exts, lifted, or_error, backend_for, get,
  write_with,
}

-- `EntryInfo`
pub record EntryInfo : Type 0 where
  pub name : Bytes
  pub ext : Bytes

abbrev info_of : Entry → EntryInfo
info_of e = record { name = e.name; ext = e.ext }

-- `EntryInfos`
unfoldable pub entry_infos : Backends → Bytes → Disk → Result StoreError (List EntryInfo)
unfolding entries
entry_infos s sub d = do es ← lifted (entries sub (exts s.all) d); ok (map info_of es)

-- `List`
unfoldable pub list_names : Backends → Bytes → Disk → Result StoreError (List Bytes)
unfolding entries
list_names s sub d = do es ← lifted (entries sub (exts s.all) d); ok (map (λ e. e.name) es)

-- The backend that an entry is encrypted anew with.
abbrev anew : Backends → Option Backend → Bytes → Result StoreError Backend
anew s none ext = backend_for s.all ext
anew s (some to) ext = ok to

-- One round of `Reencrypt`.
unfoldable pub reencrypt_entry : Backends → Option Backend → Entry → Disk → Result StoreError Disk
unfolding get write_with
reencrypt_entry s to e d = do
  sec ← get s e.name d
  target ← anew s to e.ext
  d' ← write_with e.name sec target d
  if target.ext == e.ext then ok d' else ok (erase e.path d')

-- What a run leaves behind, and its error, if there is one.
abbrev pub Rewritten : Type 0
Rewritten = Disk × Option StoreError

abbrev pub disk_of : Rewritten → Disk
disk_of (d, _) = d

-- An error ends the run; what was rewritten before it stays.
abbrev pub or_stop : {A : Type 0} → Disk → Result StoreError A → (A → Rewritten) → Rewritten
or_stop d (ok a) next = next a
or_stop d (err x) next = (d, some x)

unfoldable pub reencrypt_entries : Backends → Option Backend → List Entry → Disk → Rewritten
unfolding reencrypt_entry
reencrypt_entries s to [] d = (d, none)
reencrypt_entries s to (e ∷ es) d = or_stop d (reencrypt_entry s to e d) (reencrypt_entries s to es)

-- `Reencrypt`
unfoldable pub reencrypt : Backends → Bytes → Option Backend → Disk → Rewritten
unfolding entries reencrypt_entries
reencrypt s sub to d =
    or_stop d (lifted (entries sub (exts s.all) d)) (λ es. reencrypt_entries s to es d)

-- `Recipients`
unfoldable pub governing_recipients : Backends → Bytes → Disk → Result StoreError (List Bytes)
unfolding is_dir
governing_recipients s name d = do
  dir ← lifted (dir_path name)
  or_error no_recipients (s.first.recipients d (if is_dir name d then dir else dir_of dir))

-- `Match`
pub record Match : Type 0 where
  pub name : Bytes
  pub matching : List Bytes

unfoldable pub matching_lines : (Bytes → Bool) → List Bytes → List Bytes
matching_lines test [] = []
matching_lines test (l ∷ ls) =
    let rest = matching_lines test ls in if test l then l ∷ rest else rest

-- An entry without a line that matches is left out.
abbrev matched : Bytes → List Bytes → List Match → List Match
matched name [] rest = rest
matched name (l ∷ ls) rest = record { name = name; matching = l ∷ ls } ∷ rest

-- The loop of `Grep`
unfoldable pub grep_entries :
    Backends → (Bytes → Bool) → List Entry → Disk → Result StoreError (List Match)
unfolding get matching_lines lines
grep_entries s test [] d = ok []
grep_entries s test (e ∷ es) d = do
  sec ← get s e.name d
  rest ← grep_entries s test es d
  ok (matched e.name (matching_lines test (lines sec)) rest)

-- `Grep`
unfoldable pub grep : Backends → Bytes → (Bytes → Bool) → Disk → Result StoreError (List Match)
unfolding entries grep_entries
grep s sub test d = do es ← lifted (entries sub (exts s.all) d); grep_entries s test es d

-- Some term is in a name, both in lower case.
unfoldable pub has_term : (Bytes → Bytes) → Bytes → List Bytes → Bool
unfolding contains_text
has_term lower name [] = false
has_term lower name (t ∷ terms) =
    let rest = has_term lower name terms in
    if contains_text (lower name) (lower t) then true else rest

unfoldable pub named_by : (Bytes → Bytes) → List Bytes → List Bytes → List Bytes
unfolding has_term
named_by lower terms [] = []
named_by lower terms (n ∷ names) =
    let rest = named_by lower terms names in if has_term lower n terms then n ∷ rest else rest

-- `Find`, over what `strings.ToLower` does.
unfoldable pub find_names :
    (Bytes → Bytes) → Backends → List Bytes → Disk → Result StoreError (List Bytes)
unfolding list_names named_by
find_names lower s terms d = do names ← list_names s [] d; ok (named_by lower terms names)
