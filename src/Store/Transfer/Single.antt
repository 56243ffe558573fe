-- ===== src/Store/Transfer/Single.antt =====
-- transferEntry of pkg/store/transfer.go: one entry that is moved or copied.
use binpass.Prelude.{
  ok_inj, Bool, true, false, ◌&&◌, List, Option, none, some, Bytes, ◌==◌, bytes_eq, ==-same,
  ==-other, if◌then◌else◌, Result, ok, ◌>>=◌, >>=-eq-ok, ◌≡◌, inl, inr, sym, ap, ◌∙◌, arith,
  Bool-cases,
}
use binpass.Prelude.Dict.{lookup, insert, erase, lookup-erase, lookup-insert}
use binpass.Secret.{Secret}
use binpass.Storage.{Disk, find, path_of, dir_of, ext_of}
use binpass.Store.{
  Backend, Backends, StoreError, exts, backend_for, get, opened, lifted, or_error, unreadable,
  decrypt_failed, write_with, write_at, no_recipients, encrypt_failed,
}
use binpass.Store.Target.{IsSound, backend_for-All, lifted-ok}
use binpass.Store.Transfer.{same_recipients, carried, rewritten, transfer_entry}

-- What a transfer makes of the files: the destination has a content, the source is gone if it was
-- to be removed, and every other file is as it was.
pub Carries : Bool → Bytes → Bytes → Bytes → Disk → Disk → Type 0
Carries remove src dst content d e =
    (path : Bytes)
    → lookup path e ≡ (
        if path == dst then some content else if remove && path == src then none else lookup path d)

pub or_error-ok :
    {A : Type 0} (x : StoreError) (o : Option A) (a : A) → or_error x o ≡ ok a → o ≡ some a
or_error-ok x none a h = cc
or_error-ok x (some b) a h = ap some (ok_inj h)

carried-Carries :
    (remove : Bool) (src dst content : Bytes) (d e : Disk)
    → lookup src d ≡ some content
    → carried remove src dst d ≡ ok e
    → Carries remove src dst content d e
unfolding Carries
carried-Carries true src dst content d e there h path =
    let moved = ok_inj (rw there at h) in
    ap (lookup path) (sym moved)
    ∙ lookup-insert path dst content (erase src d)
    ∙ ap (λ o. if path == dst then some content else o) (lookup-erase path src d)
carried-Carries false src dst content d e there h path =
    let moved = ok_inj (rw there at h) in
    ap (lookup path) (sym moved) ∙ lookup-insert path dst content d

-- What was read is decrypted from the file that was found.
get-ok :
    (s : Backends) (name src : Bytes) (b : Backend) (sec : Secret) (d : Disk)
    → find name (exts s.all) d ≡ ok src
    → backend_for s.all (ext_of src) ≡ ok b
    → get s name d ≡ ok sec
    → (content : Bytes) × (lookup src d ≡ some content) × (b.decrypt content ≡ some sec.raw)
unfolding get opened
get-ok s name src b sec d f k h =
    let read = rw (f, k) at h in
    let (content, there, next) =
      >>=-eq-ok (or_error unreadable (lookup src d))
        (λ content.
          or_error decrypt_failed (b.decrypt content) >>= λ plain. ok (record { raw = plain }))
        read in
    let (plain, opens, same) =
      >>=-eq-ok (or_error decrypt_failed (b.decrypt content)) (λ plain. ok (record { raw = plain }))
        next in
    (
      content,
      or_error-ok unreadable (lookup src d) content there,
      or_error-ok decrypt_failed (b.decrypt content) plain opens
          ∙ ap (λ x. some x.raw) (ok_inj same),
    )

erased-Carries :
    (remove : Bool) (src dst content : Bytes) (d e w : Disk)
    → insert dst content d ≡ w
    → (src == dst) ≡ false
    → (if remove then erase src w else w) ≡ e
    → Carries remove src dst content d e
unfolding Carries
erased-Carries true src dst content d e w p ne h path =
    ap (lookup path) (sym h)
    ∙ lookup-erase path src w
    ∙ rw (sym p, lookup-insert path dst content d) ground (arith, ne)
erased-Carries false src dst content d e w p ne h path =
    ap (lookup path) (sym h) ∙ ap (lookup path) (sym p) ∙ lookup-insert path dst content d

rewritten-Carries :
    (s : Backends) (remove : Bool) (src to dst : Bytes) (sec : Secret) (b : Backend) (d e : Disk)
    → ((plain : Bytes) (rcp : List Bytes) (content : Bytes)
        → b.encrypt plain rcp ≡ some content
        → b.decrypt content ≡ some plain)
    → path_of to b.ext ≡ ok dst
    → (src == dst) ≡ false
    → rewritten s remove src to sec b d ≡ ok e
    → (content : Bytes) × (b.decrypt content ≡ some sec.raw) × Carries remove src dst content d e
unfolding write_with write_at
rewritten-Carries s remove src to dst sec b d e opens at_dst ne h =
    let (written, wrote, kept) =
      >>=-eq-ok (write_with to sec b d) (λ w. ok (if remove then erase src w else w)) h in
    let (rcp, r, next) =
      >>=-eq-ok (or_error no_recipients (b.recipients d (dir_of dst)))
        (λ rcp.
          or_error encrypt_failed (b.encrypt sec.raw rcp) >>= λ content. ok (insert dst content d))
        (rw at_dst at wrote) in
    let (content, en, last) =
      >>=-eq-ok (or_error encrypt_failed (b.encrypt sec.raw rcp))
        (λ content. ok (insert dst content d)) next in
    (
      content,
      opens sec.raw rcp content (or_error-ok encrypt_failed (b.encrypt sec.raw rcp) content en),
      erased-Carries remove src dst content d e written (ok_inj last) ne (ok_inj kept),
    )

-- The steps of `transferEntry` behind the search for the source.
module _ (s : Backends) (remove : Bool) (to : Bytes) (d : Disk) (sec : Secret) (src : Bytes) where
  abbrev finish : Backend → Bytes → Bool → Result StoreError Disk
  finish b dst same = if same then carried remove src dst d else rewritten s remove src to sec b d

  abbrev with_destination : Backend → Bytes → Result StoreError Disk
  with_destination b dst = same_recipients b (dir_of src) (dir_of dst) d >>= finish b dst

  abbrev with_backend : Backend → Result StoreError Disk
  with_backend b = lifted (path_of to b.ext) >>= with_destination b

  abbrev with_source : Result StoreError Disk
  with_source = backend_for s.all (ext_of src) >>= with_backend

same_recipients-false :
    (b : Backend) (a c : Bytes) (d : Disk) → same_recipients b a c d ≡ ok false → (a == c) ≡ false
unfolding same_recipients
same_recipients-false b a c d h = elim (Bool-cases (a == c)) [
  | inl same ↦ (let wrong = ok_inj (rw same at h) in cc)
  | inr other ↦ other
]

dir_differs : (a c : Bytes) → (dir_of a == dir_of c) ≡ false → (a == c) ≡ false
dir_differs a c h =
    ==-other a c
      (λ p. (let q = ap (λ x. dir_of x == dir_of c) p in let r = ==-same (dir_of c) in cc))

finish-Carries :
    (s : Backends) (from to : Bytes) (remove : Bool) (src dst : Bytes) (sec : Secret) (b : Backend)
    (d e : Disk) (same : Bool)
    → IsSound s
    → find from (exts s.all) d ≡ ok src
    → backend_for s.all (ext_of src) ≡ ok b
    → path_of to b.ext ≡ ok dst
    → get s from d ≡ ok sec
    → same_recipients b (dir_of src) (dir_of dst) d ≡ ok same
    → finish s remove to d sec src b dst same ≡ ok e
    → (content : Bytes) × (b.decrypt content ≡ some sec.raw) × Carries remove src dst content d e
finish-Carries s from to remove src dst sec b d e true sound f k at_dst got eq h =
    let (content, there, opens) = get-ok s from src b sec d f k got in
    (content, opens, carried-Carries remove src dst content d e there h)
finish-Carries s from to remove src dst sec b d e false sound f k at_dst got eq h =
    let opens =
      backend_for-All
        (λ b.
          (plain : Bytes) (rcp : List Bytes) (content : Bytes)
          → b.encrypt plain rcp ≡ some content
          → b.decrypt content ≡ some plain)
        s.all (ext_of src) b sound.opens k in
    rewritten-Carries s remove src to dst sec b d e opens at_dst
      (dir_differs src dst (same_recipients-false b (dir_of src) (dir_of dst) d eq)) h

-- What a transfer that succeeds has done: what is read at the source is what its file decrypts to,
-- and the destination's file decrypts to it too.
pub transfer_entry-Carries :
    (s : Backends) (from to : Bytes) (remove : Bool) (d e : Disk)
    → IsSound s
    → transfer_entry s from to remove d ≡ ok e
    → (sec : Secret) × (src : Bytes) × (b : Backend) × (dst : Bytes) × (content : Bytes) × (get s
          from d
        ≡ ok sec)
      × (find from (exts s.all) d ≡ ok src)
      × (backend_for s.all (ext_of src) ≡ ok b)
      × (path_of to b.ext ≡ ok dst)
      × (b.decrypt content ≡ some sec.raw)
      × Carries remove src dst content d e
unfolding transfer_entry same_recipients
transfer_entry-Carries s from to remove d e sound h =
    let (sec, got, h1) =
      >>=-eq-ok (get s from d)
        (λ sec. lifted (find from (exts s.all) d) >>= with_source s remove to d sec) h in
    let (src, f, h2) =
      >>=-eq-ok (lifted (find from (exts s.all) d)) (with_source s remove to d sec) h1 in
    let (b, k, h3) =
      >>=-eq-ok (backend_for s.all (ext_of src)) (with_backend s remove to d sec src) h2 in
    let (dst, at_dst, h4) =
      >>=-eq-ok (lifted (path_of to b.ext)) (with_destination s remove to d sec src b) h3 in
    let (same, eq, h5) =
      >>=-eq-ok (same_recipients b (dir_of src) (dir_of dst) d) (finish s remove to d sec src b dst)
        h4 in
    let found_src = lifted-ok (find from (exts s.all) d) src f in
    let found_dst = lifted-ok (path_of to b.ext) dst at_dst in
    let (content, opens, carries) =
      finish-Carries s from to remove src dst sec b d e same sound found_src k found_dst got eq
        h5 in
    (sec, src, b, dst, content, got, found_src, k, found_dst, opens, carries)

pub at_path :
    (remove : Bool) (src dst content : Bytes) (d e : Disk)
    → Carries remove src dst content d e
    → (path : Bytes)
    → lookup path e ≡ (
        if path == dst then some content else if remove && path == src then none else lookup path d)
unfolding Carries
at_path remove src dst content d e c path = c path
