-- ===== src/Tests/Stores.antt =====
-- Runs of the entries of a store.
use binpass.Prelude.{
  true, none, [], ◌∷◌, some, Bytes, codes, bytes_eq, nat_eq, ok, err, ◌≡◌, refl, sym, arith,
}
use binpass.Prelude.Dict.{lookup, insert, erase}
use binpass.Text.{trim_space, trim_prefix, take, ends_in, trim_last, last_index}
use binpass.Paths.{rel, clean, escapes}
use binpass.Secret.{Secret}
use binpass.Storage.{
  Disk, first_file, find, ext_of, path_of, dir_path, entries, is_dir, dir_of, drop_below,
}
use binpass.Store.{Backend, Backends, backend_for, get, set, target, not_found}
use binpass.Store.Target.{IsSound}
use binpass.Sync.Merge.{bytes_ltb}
use binpass.Store.Listing.{disk_of, reencrypt}
use binpass.Store.Renewal.{reencrypt_keeps}
use binpass.Store.Laws.{set_lem, Apart}
use binpass.Store.Refinement.{set_all, expected, set_all_refines}
use binpass.Store.Transfer.{transfer_entry, transfer_dir}
use binpass.Store.Transfer.Laws.{transfer_dir_leaves_nothing}
use binpass.Store.Transfer.Destination.{transfer_entry_lem}

abbrev pub plain_backend : Bytes → Backend
plain_backend ext = record {
  ext = ext;
  recipients = λ d dir. some (codes "k" ∷ []);
  encrypt = λ plain rcp. some plain;
  decrypt = λ content. some content;
}

abbrev pub both : Backends
both = record {
  all = plain_backend (codes ".gpg") ∷ plain_backend (codes ".age") ∷ [];
  first = plain_backend (codes ".age");
}

pub both-IsSound : IsSound both
unfolding backend_for bytes_eq ext_of nat_eq
both-IsSound = record {
  first_known = refl;
  each_known = (refl, (refl, tt));
  proper = ((refl, refl), ((refl, refl), tt));
  opens = ((λ plain rcp content e. sym e), ((λ plain rcp content e. sym e), tt));
}

-- A store with an entry in each format, and one in a folder.
abbrev pub files : Disk
files = (codes "a.gpg", codes "s") ∷ (codes "b.age", codes "t") ∷ (codes "w/m.age", codes "u") ∷ []

abbrev new_secret : Secret
new_secret = record { raw = codes "n" }

set_lem_example :
    (set both (codes "b") new_secret files ≡ ok (insert (codes "b.age") (codes "n") files))
    × (get both (codes "b") (insert (codes "b.age") (codes "n") files) ≡ ok new_secret)
    × (get both (codes "a") (insert (codes "b.age") (codes "n") files) ≡ get both (codes "a") files)
unfolding target find first_file lookup backend_for bytes_eq ext_of nat_eq rel Apart trim_prefix
    trim_space escapes clean
set_lem_example =
    set_lem both (codes "b") (codes "b.age") (codes "n") (codes "a") new_secret
      (plain_backend (codes ".age")) (codes "k" ∷ []) files both-IsSound refl refl refl
      (ground arith, (ground arith, tt))

-- The files after `b` was moved to `c`.
abbrev moved : Disk
moved = (codes "a.gpg", codes "s") ∷ (codes "w/m.age", codes "u") ∷ (codes "c.age", codes "t") ∷ []

transfer_entry_lem_example : get both (codes "c") moved ≡ get both (codes "b") files
unfolding transfer_entry find first_file lookup insert erase backend_for bytes_eq ext_of nat_eq rel
    path_of trim_prefix trim_space escapes clean get dir_of last_index
transfer_entry_lem_example =
    transfer_entry_lem both (codes "b") (codes "c") (codes "c") true files moved both-IsSound refl
      refl refl

-- The files after the folder was moved into itself.
abbrev lost : Disk
lost = (codes "a.gpg", codes "s") ∷ (codes "b.age", codes "t") ∷ []

transfer_dir_leaves_nothing_example : get both (codes "w/old/m") lost ≡ err not_found
unfolding transfer_dir transfer_entry entries is_dir find first_file lookup insert erase backend_for
    bytes_eq ext_of nat_eq rel path_of dir_path trim_prefix trim_space escapes clean get take
    ends_in trim_last dir_of last_index drop_below
transfer_dir_leaves_nothing_example =
    transfer_dir_leaves_nothing both (codes "w") (codes "w/old") (codes "w") (codes "w/old/m")
      (codes "old/m") files lost refl (ground arith) refl refl

set_all_refines_example :
    get both (codes "b") (insert (codes "b.age") (codes "n") files)
    ≡ expected (get both (codes "b") files) (codes "b") ((codes "b", new_secret) ∷ [])
unfolding set target find first_file lookup insert backend_for bytes_eq ext_of nat_eq rel set_all
    trim_prefix trim_space escapes clean
set_all_refines_example =
    set_all_refines both 4 (codes "b") (codes "b") ((codes "b", new_secret) ∷ []) files
      (insert (codes "b.age") (codes "n") files) both-IsSound (refl, (refl, tt)) refl refl

reencrypt_keeps_example :
    get both (codes "b") (disk_of (reencrypt both [] none files)) ≡ ok (record { raw = codes "t" })
unfolding reencrypt rel trim_prefix trim_space escapes bytes_eq clean dir_path ext_of nat_eq
    bytes_ltb take find lookup backend_for path_of insert
reencrypt_keeps_example =
    reencrypt_keeps both 4 [] (codes "b") (codes "b") (record { raw = codes "t" }) files
      both-IsSound (refl, (refl, tt)) refl refl
