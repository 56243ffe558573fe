-- ===== src/Tests/Sharing.antt =====
-- Runs of the lists of recipients.
use binpass.Prelude.{false, [], ◌∷◌, codes, bytes_eq, nat_eq, ◌≡◌, refl, arith, inr}
use binpass.Storage.{Disk}
use binpass.Text.{has_prefix}
use binpass.Crypto.{find_recipients_file, is_within}
use binpass.Crypto.Nearest.{EndsNearest, find_recipients_file-EndsNearest}

abbrev shared : Disk
shared = (codes ".gpg-id", codes "a") ∷ (codes "work/.gpg-id", codes "b") ∷ []

find_recipients_file-EndsNearest_example :
    EndsNearest
      (codes "work/mail")
      (codes ".gpg-id")
      shared
      (find_recipients_file (codes "work/mail") (codes ".gpg-id") shared)
unfolding has_prefix
find_recipients_file-EndsNearest_example =
    find_recipients_file-EndsNearest (codes "work/mail") (codes ".gpg-id") shared (inr refl)

-- A directory whose name begins with two dots counts as one outside of the store.
dotted : is_within (codes "..cache") ≡ false
unfolding is_within
dotted = ground arith
