-- ===== src/Store/Search.antt =====
-- Find of pkg/storage/fs.go: the files of an entry, after another file was written.
use binpass.Prelude.{
  true, List, [], ◌∷◌, ◌++◌, none, some, Bytes, ◌==◌, bytes_eq, ==-eq, ==-other, ◌≡◌, ◌≢◌, inl, inr,
  refl, ap, arith, All, contains, Bool-cases,
}
use binpass.Prelude.Dict.{insert, lookup-insert}
use binpass.Storage.{Disk, ext_of, nonempty, first_file}

pub ext_of-append :
    (p ext : Bytes) → ext_of ext ≡ ext → nonempty ext ≡ true → ext_of (p ++ ext) ≡ ext
unfolding ext_of
ext_of-append [] ext h n = h
ext_of-append (c ∷ p) ext h n = rw (ext_of-append p ext h n, n) refl

-- A file under one of the extensions is the first one, where there was none.
pub first_file-insert :
    (p ext c : Bytes) (es : List Bytes) (d : Disk)
    → contains es ext ≡ true
    → first_file p es d ≡ none
    → first_file p es (insert (p ++ ext) c d) ≡ some (p ++ ext)
unfolding first_file
first_file-insert p ext c [] d k h = cc
first_file-insert p ext c (e ∷ es) d k h = elim (Bool-cases (p ++ e == p ++ ext)) [
  | inl same ↦
      rw (lookup-insert (p ++ e) (p ++ ext) c d, same) (ap some (==-eq (p ++ e) (p ++ ext) same))
  | inr other ↦
      rw (lookup-insert (p ++ e) (p ++ ext) c d, other)
        (ground (arith, first_file-insert p ext c es d, h, k, other))
]

-- A file that was the first one stays so when it is written again.
pub first_file-insert_again :
    (p path c : Bytes) (es : List Bytes) (d : Disk)
    → first_file p es d ≡ some path
    → first_file p es (insert path c d) ≡ some path
unfolding first_file
first_file-insert_again p path c [] d h = cc
first_file-insert_again p path c (e ∷ es) d h =
    ground (arith, lookup-insert (p ++ e) path c d, first_file-insert_again p path c es d, h)

-- A file that has none of an entry's paths changes nothing for it.
pub first_file-insert_other :
    (p path c : Bytes) (es : List Bytes) (d : Disk)
    → All (λ e. p ++ e ≢ path) es
    → first_file p es (insert path c d) ≡ first_file p es d
unfolding first_file
first_file-insert_other p path c [] d u = refl
first_file-insert_other p path c (e ∷ es) d (ne, u) =
    rw
      (
        lookup-insert (p ++ e) path c d,
        ==-other (p ++ e) path ne,
        first_file-insert_other p path c es d u,
      )
      refl
