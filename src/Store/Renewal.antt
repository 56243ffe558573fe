-- ===== src/Store/Renewal.antt =====
-- Reencrypt of pkg/store/store.go: what is read once the entries were encrypted anew.
use binpass.Prelude.{
  ℕ, true, List, [], ◌∷◌, ◌++◌, Result, err, none, some, Bytes, ◌==◌, bytes_eq, ==-eq, ==-same, ok,
  ◌>>=◌, >>=-eq-ok, ok_inj, some_inj, ◌≡◌, ◌⊎◌, inl, inr, refl, subst, sym, ap, ◌∙◌, length,
  Bool-cases, Option-cases, if◌then◌else◌,
}
use binpass.Prelude.Dict.{lookup, insert, erase, lookup-insert}
use binpass.Secret.{Secret}
use binpass.Paths.{rel}
use binpass.Storage.{Disk, Entry, entries, first_file, find, path_of, dir_of, ext_of, nonempty}
use binpass.Store.{
  Backend, Backends, StoreError, exts, backend_for, get, opened, lifted, or_error, write_with,
  write_at, no_recipients, encrypt_failed,
}
use binpass.Store.Listing.{
  Rewritten, disk_of, or_stop, reencrypt, reencrypt_entries, reencrypt_entry,
}
use binpass.Store.Search.{ext_of-append}
use binpass.Store.Target.{
  IsSound, find-inside, find-ok, backend_for-All, backend_for-ext, lifted-ok, relative-ok,
}
use binpass.Store.Laws.{Apart, opened-insert, get-insert_other}
use binpass.Store.Refinement.{Even, apart-exts, get-rel}
use binpass.Store.Transfer.Single.{or_error-ok}

first_file-insert_either :
    (p path c q : Bytes) (es : List Bytes) (d : Disk)
    → first_file p es d ≡ some q
    → (first_file p es (insert path c d) ≡ some q) ⊎ (first_file p es (insert path c d) ≡ some path)
unfolding first_file
first_file-insert_either p path c q [] d h = cc
first_file-insert_either p path c q (e ∷ es) d h = elim (Bool-cases (p ++ e == path)) [
  | inl same ↦ inr (rw (lookup-insert (p ++ e) path c d, same) (ap some (==-eq (p ++ e) path same)))
  | inr other ↦
      rw (lookup-insert (p ++ e) path c d, other)
        (elim (Option-cases (lookup (p ++ e) d)) [
          | inl free ↦ rw free (first_file-insert_either p path c q es d (rw free at h))
          | inr (k, there) ↦ rw there (inl (rw there at h))
        ])
]

or_stop-keeps :
    {A : Type 0} (P : Disk → Type 0) (d : Disk) (r : Result StoreError A) (next : A → Rewritten)
    → ((a : A) → r ≡ ok a → P (disk_of (next a)))
    → P d
    → P (disk_of (or_stop d r next))
or_stop-keeps P d (ok a) next went stopped = went a refl
or_stop-keeps P d (err x) next went stopped = stopped

module _ (s : Backends) (sound : IsSound s) where
  opened-written :
      (p content : Bytes) (b : Backend) (sec : Secret) (d : Disk)
      → backend_for s.all b.ext ≡ ok b
      → b.decrypt content ≡ some sec.raw
      → opened s (insert (p ++ b.ext) content d) (p ++ b.ext) ≡ ok sec
  unfolding opened
  opened-written p content b sec d known opens =
      let path = p ++ b.ext in
      let (proper, long) =
        backend_for-All (λ b. (ext_of b.ext ≡ b.ext) × (nonempty b.ext ≡ true)) s.all b.ext b
          sound.proper known in
      rw
        (
          ext_of-append p b.ext proper long,
          known,
          lookup-insert path path content d,
          ==-same path,
          opens,
        )
        refl

  -- An entry is read as before where one of its files gets the same secret.
  get-rewritten :
      (name p content : Bytes) (b : Backend) (sec : Secret) (d : Disk)
      → rel name ≡ some p
      → backend_for s.all b.ext ≡ ok b
      → b.decrypt content ≡ some sec.raw
      → get s name d ≡ ok sec
      → get s name (insert (p ++ b.ext) content d) ≡ ok sec
  unfolding get
  get-rewritten name p content b sec d inside known opens r =
      let es = exts s.all in
      let path = p ++ b.ext in
      let (q, f, o) = >>=-eq-ok (lifted (find name es d)) (opened s d) r in
      let (k, at_k, there) = find-ok name es d q (lifted-ok (find name es d) q f) in
      let here = subst (λ x. first_file x es d ≡ some q) (some_inj (sym at_k ∙ inside)) there in
      let new = opened-written p content b sec d known opens in
      rw (find-inside name es (insert path content d) p inside)
        (elim (first_file-insert_either p path content q es d here) [
          | inr now ↦ rw now new
          | inl kept ↦ rw kept (elim (bytes_eq.dec q path) [
            | yes same ↦ subst (λ x. opened s (insert path content d) x ≡ ok sec) (sym same) new
            | no differ ↦ opened-insert s q path content d differ ∙ o
          ])
        ])

  write_with-ok :
      (name : Bytes) (sec : Secret) (b : Backend) (d e : Disk)
      → backend_for s.all b.ext ≡ ok b
      → write_with name sec b d ≡ ok e
      → (p : Bytes) × (content : Bytes) × (rel name ≡ some p)
        × (b.decrypt content ≡ some sec.raw)
        × (insert (p ++ b.ext) content d ≡ e)
  unfolding write_with write_at path_of
  write_with-ok name sec b d e known h =
      let (path, at_path, h1) =
        >>=-eq-ok (lifted (path_of name b.ext)) (λ path. write_at b path sec d) h in
      let (p, inside, same) =
        relative-ok (rel name) (λ p. ok (p ++ b.ext)) path
          (lifted-ok (path_of name b.ext) path at_path) in
      let (rcp, _, h2) =
        >>=-eq-ok (or_error no_recipients (b.recipients d (dir_of path)))
          (λ rcp. or_error encrypt_failed (b.encrypt sec.raw rcp) >>= λ content.
            ok (insert path content d))
          h1 in
      let (content, en, h3) =
        >>=-eq-ok (or_error encrypt_failed (b.encrypt sec.raw rcp))
          (λ content. ok (insert path content d)) h2 in
      let opens =
        backend_for-All
          (λ b.
            (plain : Bytes) (rcp : List Bytes) (content : Bytes)
            → b.encrypt plain rcp ≡ some content
            → b.decrypt content ≡ some plain)
          s.all b.ext b sound.opens known in
      (
        p,
        content,
        inside,
        opens sec.raw rcp content (or_error-ok encrypt_failed (b.encrypt sec.raw rcp) content en),
        ap (λ x. insert x content d) (ok_inj same) ∙ ok_inj h3,
      )

  module _ (n : ℕ) (even : Even n s.all) (other r : Bytes) (old : Secret)
      (at_r : rel other ≡ some r) where
    reencrypt_entry_keeps :
        (x : Entry) (d e : Disk)
        → reencrypt_entry s none x d ≡ ok e
        → get s other d ≡ ok old
        → get s other e ≡ ok old
    unfolding reencrypt_entry Apart
    reencrypt_entry_keeps x d e h read =
        let (sec, got, h1) =
          >>=-eq-ok (get s x.name d)
            (λ sec. backend_for s.all x.ext >>= λ b. write_with x.name sec b d >>= λ w.
              if b.ext == x.ext then ok w else ok (erase x.path w))
            h in
        let (b, found_b, h2) =
          >>=-eq-ok (backend_for s.all x.ext)
            (λ b. write_with x.name sec b d >>= λ w.
              if b.ext == x.ext then ok w else ok (erase x.path w))
            h1 in
        let (w, done, h3) =
          >>=-eq-ok (write_with x.name sec b d)
            (λ w. if b.ext == x.ext then ok w else ok (erase x.path w)) h2 in
        let b_ext = backend_for-ext s.all x.ext b found_b in
        let end = ok_inj (rw (b_ext, ==-same x.ext) at h3) in
        let known = ap (backend_for s.all) b_ext ∙ found_b in
        let (p, content, inside, opens, wrote) = write_with-ok x.name sec b d w known done in
        let l = backend_for-All (λ b. length b.ext ≡ n) s.all b.ext b even known in
        subst (λ k. get s other k ≡ ok old) (wrote ∙ end)
          (elim (bytes_eq.dec r p) [
            | yes same ↦
                let at_p = at_r ∙ ap some same in
                get-rewritten other p content b old d at_p known
                  (opens
                    ∙ ap (λ k. some k.raw)
                        (ok_inj (sym got ∙ get-rel s x.name other p d inside at_p ∙ read)))
                  read
            | no differ ↦
                get-insert_other s other (p ++ b.ext) content d (
                  subst (Apart (exts s.all) (p ++ b.ext)) (sym at_r)
                    (apart-exts n p r b.ext s.all even l differ))
                ∙ read
          ])

    reencrypt_entries_keeps :
        (es : List Entry) (d : Disk)
        → get s other d ≡ ok old
        → get s other (disk_of (reencrypt_entries s none es d)) ≡ ok old
    unfolding reencrypt_entries
    reencrypt_entries_keeps [] d read = read
    reencrypt_entries_keeps (x ∷ es) d read =
        or_stop-keeps (λ k. get s other k ≡ ok old) d (reencrypt_entry s none x d)
          (reencrypt_entries s none es)
          (λ mid done. reencrypt_entries_keeps es mid (reencrypt_entry_keeps x d mid done read))
          read

-- Encrypting the entries of a folder anew, each in its own format, leaves every secret that can be
-- read, in the folder or not, as it was, whatever error is reported. The backends decrypt what they
-- have encrypted, are told apart by their extensions, and the extensions have one length.
pub reencrypt_keeps :
    (s : Backends) (n : ℕ) (sub other p : Bytes) (sec : Secret) (d : Disk)
    → IsSound s
    → Even n s.all
    → rel other ≡ some p
    → get s other d ≡ ok sec
    → get s other (disk_of (reencrypt s sub none d)) ≡ ok sec
unfolding reencrypt
reencrypt_keeps s n sub other p sec d sound even inside read =
    or_stop-keeps (λ k. get s other k ≡ ok sec) d (lifted (entries sub (exts s.all) d))
      (λ es. reencrypt_entries s none es d)
      (λ es _. reencrypt_entries_keeps s sound n even other p sec inside es d read) read
