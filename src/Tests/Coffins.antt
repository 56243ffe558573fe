-- ===== src/Tests/Coffins.antt =====
-- Runs of the containers of a store.
use binpass.Prelude.{
  ℕ, Bool, false, List, [], ◌∷◌, Option, none, some, Bytes, codes, bytes_eq, nat_eq, ◌≡◌, ◌≢◌, refl,
  arith, if◌then◌else◌, All,
}
use binpass.Text.{has_prefix, split}
use binpass.Tomb.Tree.{Folder, file, folder, empty, entry, child, find}
use binpass.Tomb.Coffin.{has_plaintext, write_tar, TarEntry, tar_file, Links, shred_folder}
use binpass.Tomb.Coffin.Shred.{name_of, close_loses_hidden}
use binpass.Tomb.Coffin.Pack.{Has, slashed, close_packs_shown}
use binpass.Tomb.Coffin.Run.{
  World, close, already_open, open_check, is_open, read_recipients, trim_blanks,
}
use binpass.Tomb.Coffin.Run.Laws.{shown_survivor, close_hides_iff}

abbrev no_links : Links
no_links = record { resolves = λ t. false; read = λ t. none }

-- A store with recipients, a version control directory, and a folder that has recipients too.
abbrev store : Folder
store = entry (codes ".age-recipients") (file (codes "k")) (
    entry (codes ".git") (folder (entry (codes "HEAD") (file (codes "r")) empty)) (
      entry (codes "team")
        (folder (
          entry (codes ".age-recipients") (file (codes "k"))
            (entry (codes "mail.age") (file (codes "s")) empty)))
        empty))

close_loses_hidden_example :
    All (λ e. has_prefix (name_of e) (codes ".git") ≡ false) (write_tar store)
    × (find (codes ".git") (codes "HEAD" ∷ []) (shred_folder no_links store)
        ≢ some (file (codes "r")))
unfolding bytes_eq
close_loses_hidden_example =
    close_loses_hidden no_links store (codes ".git") (codes "HEAD" ∷ []) (codes "r") refl refl

close_packs_shown_example :
    Has (tar_file (slashed (codes "team") (codes "mail.age" ∷ [])) (codes "s")) (write_tar store)
unfolding find child bytes_eq
close_packs_shown_example =
    close_packs_shown store (codes "team") (codes "mail.age" ∷ []) (codes "s") refl (ground arith)
      refl

abbrev seal_any : List Bytes → List TarEntry → Option Bytes
seal_any rcp archive = some (codes "z")

abbrev opened : World
opened = record { dir = store; state = none }

abbrev never_dead : ℕ → Bool
never_dead pid = false

close_hides_iff_example :
    ((close no_links seal_any opened).1 ≡ none)
    × (is_open never_dead (close no_links seal_any opened).0 ≡ shown_survivor no_links store)
    × ((open_check never_dead (close no_links seal_any opened).0).1
        ≡ (if shown_survivor no_links store then some already_open else none))
unfolding has_plaintext read_recipients trim_blanks child bytes_eq split
close_hides_iff_example =
    close_hides_iff no_links seal_any never_dead opened (codes "k" ∷ []) (codes "z") refl refl refl
      refl refl refl
