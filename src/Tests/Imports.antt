-- ===== src/Tests/Imports.antt =====
-- Runs of an import into a store of files.
use binpass.Prelude.{true, false, [], ◌∷◌, none, codes, bytes_eq, nat_eq, ok, ◌≡◌, ◌⊎◌, refl, map}
use binpass.Prelude.Dict.{lookup, insert}
use binpass.Text.{trim_space, trim_prefix}
use binpass.Paths.{rel, clean, escapes}
use binpass.Storage.{find, path_of, dir_path, ext_of}
use binpass.Store.{backend_for, backend_for_new, get}
use binpass.Importer.{
  Imported, store_path, normalize_path, validate_path, deduplicate_paths, to_secret,
}
use binpass.Importer.Write.{write_entries, plan, plan_path, attachment_names}
use binpass.Importer.Write.Planned.{shown, write_entries-plan}
use binpass.Importer.Derived.{normalize_path_lem}
use binpass.Importer.Write.Kept.{write_entries_keeps}
use binpass.Tests.Stores.{both, both-IsSound, files}

abbrev login : Imported
login = record {
  title = codes " A:  b";
  explicit_path = [];
  group = codes "../Web";
  main_password = codes "p";
  raw_secret = none;
  username = codes "u";
  url = [];
  notes = codes "n";
  totp_uri = [];
  extras = record { label = codes "k"; content = codes "v" } ∷ [];
  attachments = record { filename = codes "f"; blob = codes "x" } ∷ [];
}

-- An entry with a name that the store has.
abbrev clash : Imported
clash = record login { title = codes "a"; group = [] }

-- An entry without a path.
abbrev lost : Imported
lost = record login { explicit_path = codes "/x"; attachments = [] }

-- Another entry of the same name.
abbrev twin : Imported
twin = record login { attachments = record { filename = codes "f"; blob = codes "y" } ∷ [] }

store_path_test : store_path login ≡ ok (codes "Web/A_ b")
unfolding store_path bytes_eq nat_eq
store_path_test = refl

to_secret_test : (to_secret login).raw ≡ codes "p\nusername: u\nk: v\nn\n"
unfolding to_secret
to_secret_test = refl

deduplicate_paths_test :
    deduplicate_paths (codes "a" ∷ codes "a" ∷ codes "a-2" ∷ [])
    ≡ codes "a" ∷ codes "a-2" ∷ codes "a-2" ∷ []
unfolding deduplicate_paths bytes_eq nat_eq lookup insert
deduplicate_paths_test = refl

-- The attachments of two entries of one name are written to one path.
write_entries_test :
    get both
      (codes "Web/A_ b/f.b64")
      (write_entries both (λ b. b) (login ∷ twin ∷ []) false files).disk
    ≡ ok (record { raw = codes "y\n" })
unfolding get write_entries find rel escapes bytes_eq lookup nat_eq insert backend_for_new dir_path
    path_of backend_for ext_of
write_entries_test = refl

write_entries_keeps_example :
    get both
      (codes "a")
      (write_entries both (λ b. b) (login ∷ clash ∷ lost ∷ twin ∷ []) false files).disk
    ≡ ok (record { raw = codes "s" })
unfolding get bytes_eq nat_eq rel trim_prefix trim_space escapes clean attachment_names find lookup
    backend_for ext_of
write_entries_keeps_example =
    write_entries_keeps both 4 (codes "a") (codes "a") (record { raw = codes "s" }) (λ b. b)
      (login ∷ clash ∷ lost ∷ twin ∷ []) files both-IsSound (refl, (refl, tt)) refl
      ((refl, tt), ((refl, tt), (tt, ((refl, tt), tt)))) refl

write_entries-plan_example :
    ((write_entries both (λ b. b) (login ∷ twin ∷ []) false files).written
      ≡ shown (plan both (login ∷ twin ∷ []) []) (login ∷ twin ∷ []))
    × (map (λ p. p.planned_path) (plan both (login ∷ twin ∷ []) [])
        ≡ deduplicate_paths (codes "Web/A_ b" ∷ codes "Web/A_ b" ∷ []))
unfolding store_path write_entries bytes_eq nat_eq find rel lookup escapes backend_for_new dir_path
    path_of insert backend_for ext_of plan_path
write_entries-plan_example =
    write_entries-plan both (λ b. b) (login ∷ twin ∷ []) false [] files refl

normalize_path_lem_example :
    (normalize_path (codes "../Web") (codes "..00 / .. ") ≡ [])
    ⊎ ((validate_path (normalize_path (codes "../Web") (codes "..00 / .. ")) ≡ true)
        × (clean (normalize_path (codes "../Web") (codes "..00 / .. "))
            ≡ normalize_path (codes "../Web") (codes "..00 / .. ")))
normalize_path_lem_example = normalize_path_lem (codes "../Web") (codes "..00 / .. ")
