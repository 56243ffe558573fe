-- ===== src/Store/Laws.antt =====
-- pkg/store/store.go: what a store gives back of what was put into it.
use binpass.Prelude.{
  some_inj, List, [], ◌∷◌, ◌++◌, Option, none, some, Bytes, bytes_eq, ==-same, ==-other, ok, err,
  ◌>>=◌, ◌≡◌, ◌≢◌, inl, inr, refl, subst, ◌∙◌, All, Option-cases,
}
use binpass.Prelude.Dict.{lookup, insert, lookup-insert}
use binpass.Secret.{Secret}
use binpass.Paths.{rel}
use binpass.Storage.{Disk, outside, dir_of, ext_of, first_file, found, find}
use binpass.Store.{Backend, Backends, exts, lifted, get, opened, target, write_at, set}
use binpass.Store.Target.{IsSound, find-inside, target-find, backend_for-All}
use binpass.Store.Search.{first_file-insert_other}

-- None of the files that an entry may have is at a path.
unfoldable pub Apart : List Bytes → Bytes → Option Bytes → Type 0
Apart es path none = Unit
Apart es path (some p) = All (λ e. p ++ e ≢ path) es

pub first_file-Apart :
    (p path q : Bytes) (es : List Bytes) (d : Disk)
    → All (λ e. p ++ e ≢ path) es
    → first_file p es d ≡ some q
    → q ≢ path
unfolding first_file
first_file-Apart p path q [] d u h = cc
first_file-Apart p path q (e ∷ es) d (ne, u) h = elim (Option-cases (lookup (p ++ e) d)) [
  | inl free ↦ first_file-Apart p path q es d u (rw free at h)
  | inr (c, there) ↦ λ same. ne (some_inj (rw there at h) ∙ same)
]

find-out :
    (name : Bytes) (es : List Bytes) (d : Disk) → rel name ≡ none → find name es d ≡ err outside
unfolding find
find-out name es d out = rw out refl

pub opened-insert :
    (s : Backends) (q path c : Bytes) (d : Disk)
    → q ≢ path
    → opened s (insert path c d) q ≡ opened s d q
unfolding opened
opened-insert s q path c d ne = rw (lookup-insert q path c d, ==-other q path ne) refl

found-insert :
    (s : Backends) (p path c : Bytes) (d : Disk) (o : Option Bytes)
    → All (λ e. p ++ e ≢ path) (exts s.all)
    → first_file p (exts s.all) d ≡ o
    → (lifted (found o) >>= opened s (insert path c d)) ≡ (lifted (found o) >>= opened s d)
found-insert s p path c d none u h = refl
found-insert s p path c d (some q) u h =
    opened-insert s q path c d (first_file-Apart p path q (exts s.all) d u h)

-- A file at another path changes nothing for an entry.
pub get-insert_other :
    (s : Backends) (name path c : Bytes) (d : Disk)
    → Apart (exts s.all) path (rel name)
    → get s name (insert path c d) ≡ get s name d
unfolding get Apart
get-insert_other s name path c d apart = elim (Option-cases (rel name)) [
  | inl out ↦
      rw (find-out name (exts s.all) (insert path c d) out, find-out name (exts s.all) d out) refl
  | inr (p, inside) ↦
      let u = subst (Apart (exts s.all) path) inside apart in
      rw
        (
          find-inside name (exts s.all) (insert path c d) p inside,
          find-inside name (exts s.all) d p inside,
          first_file-insert_other p path c (exts s.all) d u,
        )
        (found-insert s p path c d (first_file p (exts s.all) d) u refl)
]

-- What was encrypted for an entry is decrypted for it.
pub get-insert :
    (s : Backends) (name path content : Bytes) (sec : Secret) (b : Backend) (rcp : List Bytes)
    (d : Disk)
    → IsSound s
    → target s name d ≡ ok (path, b)
    → b.encrypt sec.raw rcp ≡ some content
    → get s name (insert path content d) ≡ ok sec
unfolding get opened
get-insert s name path content sec b rcp d sound t e =
    let (known, there) = target-find s name path content b d sound t in
    let opens =
      backend_for-All
        (λ b.
          (plain : Bytes) (rcp : List Bytes) (content : Bytes)
          → b.encrypt plain rcp ≡ some content
          → b.decrypt content ≡ some plain)
        s.all (ext_of path) b sound.opens known in
    rw (there, known, lookup-insert path path content d, ==-same path, opens sec.raw rcp content e)
      refl

-- Where an entry has a path and a backend to be written with, recipients are found, and the
-- encryption works, the entry is written; it is then read as what was written, and every entry none
-- of whose files is at that path is read as before.
pub set_lem :
    (s : Backends) (name path content other : Bytes) (sec : Secret) (b : Backend) (rcp : List Bytes)
    (d : Disk)
    → IsSound s
    → target s name d ≡ ok (path, b)
    → b.recipients d (dir_of path) ≡ some rcp
    → b.encrypt sec.raw rcp ≡ some content
    → Apart (exts s.all) path (rel other)
    → (set s name sec d ≡ ok (insert path content d))
      × (get s name (insert path content d) ≡ ok sec)
      × (get s other (insert path content d) ≡ get s other d)
unfolding set write_at
set_lem s name path content other sec b rcp d sound t r e apart = (
  rw (t, r, e) refl,
  get-insert s name path content sec b rcp d sound t e,
  get-insert_other s other path content d apart,
)
