-- ===== src/Importer/Write/Kept.antt =====
-- pkg/importer/export.go: what an import leaves of the entries of the store.
use binpass.Prelude.{
  ℕ, suc, true, false, List, [], ◌∷◌, some, Bytes, bytes_eq, ==-eq, Result, ok, err, ◌≡◌, ◌≢◌, inl,
  inr, refl, ap, ◌∙◌, All, Bool-cases, Option-cases,
}
use binpass.Prelude.Dict.{Dict, lookup}
use binpass.Secret.{Secret, create}
use binpass.Paths.{rel}
use binpass.Storage.{Disk, find}
use binpass.Store.{Backends, StoreError, exts, exists, get, set}
use binpass.Store.Target.{IsSound, Result-cases}
use binpass.Store.Refinement.{Even, names, get-rel, set-expected}
use binpass.Importer.{
  Imported, Attachment, PathError, to_secret, store_path, attachment_store_path, numbered, times,
}
use binpass.Importer.Write.{
  attach, attach_at, write_attachments, with_attachments, write_entry, write_round, write_from,
  write_entries, counted, attachment_names,
}

-- No name stands for the clean name `p`.
abbrev pub Aside : Bytes → List Bytes → Type 0
Aside p = All (λ q. names p (rel q) ≡ false)

names-rel : (p q : Bytes) → names p (rel q) ≡ true → rel q ≡ some p
names-rel p q h = elim (Option-cases (rel q)) [
  | inl out ↦ (let z = rw out at h in cc)
  | inr (r, inside) ↦ inside ∙ ap some (==-eq r p (rw inside at h))
]

-- A name under which nothing is there cannot be read.
exists-get :
    (s : Backends) (q : Bytes) (sec : Secret) (d : Disk) → exists s q d ≡ false → get s q d ≢ ok sec
unfolding exists get
exists-get s q sec d h r = elim (Result-cases (find q (exts s.all) d)) [
  | inl (path, e) ↦ (let z = rw e at h in cc)
  | inr (x, e) ↦ (let z = rw e at r in cc)
]

-- The store, an entry that can be read, and what the import does to it.
module _ (s : Backends) (n : ℕ) (other p : Bytes) (sec : Secret) (sound : IsSound s)
    (even : Even n s.all) (inside : rel other ≡ some p) (encode : Bytes → Bytes) where
  abbrev Reads : Disk → Type 0
  Reads d = get s other d ≡ ok sec

  set-Reads :
      (name : Bytes) (new : Secret) (d e : Disk)
      → names p (rel name) ≡ false
      → Reads d
      → set s name new d ≡ ok e
      → Reads e
  set-Reads name new d e aside r h =
      (rw aside at (set-expected s n name other p new d e sound even inside h)) ∙ r

  free-Aside : (q : Bytes) (d : Disk) → Reads d → exists s q d ≡ false → names p (rel q) ≡ false
  free-Aside q d r free = elim (Bool-cases (names p (rel q))) [
    | inl same ↦
        absurd (exists-get s q sec d free (get-rel s q other p d (names-rel p q same) inside ∙ r))
    | inr differ ↦ differ
  ]

  attach-Reads :
      (q : Bytes) (o : Result StoreError Disk) (d : Disk)
      → Reads d
      → ((e : Disk) → o ≡ ok e → Reads e)
      → Reads (attach q o d).disk
  unfolding attach
  attach-Reads q (ok e) d r h = h e refl
  attach-Reads q (err x) d r h = r

  write_attachments-Reads :
      (e : Imported) (i : ℕ) (rest : List Attachment) (d : Disk)
      → Aside p (attachment_names e i rest)
      → Reads d
      → Reads (write_attachments s encode e i rest d).disk
  unfolding write_attachments attach_at attachment_names
  write_attachments-Reads e i [] d aside r = r
  write_attachments-Reads e i (a ∷ rest) d aside r =
      elim (Result-cases (attachment_store_path e i)) [
        | inl (q, there) ↦
            let u : Aside p (q ∷ attachment_names e (suc i) rest) = rw there at aside in
            let new = create (encode a.blob) [] in
            rw there (
              write_attachments-Reads e (suc i) rest _ u.1
                (attach-Reads q (set s q new d) d r (λ k h. set-Reads q new d k u.0 r h)))
        | inr (x, out) ↦
            let u : Aside p (attachment_names e (suc i) rest) = rw out at aside in
            rw out (write_attachments-Reads e (suc i) rest d u r)
      ]

  with_attachments-Reads :
      (e : Imported) (q : Bytes) (o : Result StoreError Disk) (d : Disk)
      → Aside p (attachment_names e 0 e.attachments)
      → Reads d
      → ((k : Disk) → o ≡ ok k → Reads k)
      → Reads (with_attachments s encode e q o d).disk
  unfolding with_attachments
  with_attachments-Reads e q (ok k) d aside r h =
      write_attachments-Reads e 0 e.attachments k aside (h k refl)
  with_attachments-Reads e q (err x) d aside r h = r

  write_entry-Reads :
      (e : Imported) (q : Bytes) (d : Disk)
      → Aside p (attachment_names e 0 e.attachments)
      → Reads d
      → Reads (write_entry s encode false e q d).disk
  unfolding write_entry
  write_entry-Reads e q d aside r = elim (Bool-cases (exists s q d)) [
    | inl there ↦ rw there r
    | inr free ↦
        let differ = free-Aside q d r free in
        rw free (
          with_attachments-Reads e q (set s q (to_secret e) d) d aside r
            (λ k h. set-Reads q (to_secret e) d k differ r h))
  ]

  write_round-Reads :
      (seen : Dict Bytes ℕ) (e : Imported) (o : Result PathError Bytes) (d : Disk)
      → Aside p (attachment_names e 0 e.attachments)
      → Reads d
      → Reads (write_round s encode false seen e o d).disk
  unfolding write_round
  write_round-Reads seen e (err x) d aside r = r
  write_round-Reads seen e (ok q) d aside r =
      write_entry-Reads e (numbered q (times (lookup q seen))) d aside r

  write_from-Reads :
      (seen : Dict Bytes ℕ) (es : List Imported) (d : Disk)
      → All (λ e. Aside p (attachment_names e 0 e.attachments)) es
      → Reads d
      → Reads (write_from s encode false seen es d).disk
  unfolding write_from
  write_from-Reads seen [] d aside r = r
  write_from-Reads seen (e ∷ es) d (here, later) r =
      write_from-Reads (counted (store_path e) seen) es _ later
        (write_round-Reads seen e (store_path e) d here r)

-- An import that is not forced leaves every entry that can be read as it was, whatever fails on the
-- way, if no attachment of an imported entry has a name that stands for the same entry. The
-- backends decrypt what they have encrypted, are told apart by their extensions, and the extensions
-- have one length.
pub write_entries_keeps :
    (s : Backends) (n : ℕ) (other p : Bytes) (sec : Secret) (encode : Bytes → Bytes)
    (es : List Imported) (d : Disk)
    → IsSound s
    → Even n s.all
    → rel other ≡ some p
    → All (λ e. Aside p (attachment_names e 0 e.attachments)) es
    → get s other d ≡ ok sec
    → get s other (write_entries s encode es false d).disk ≡ ok sec
unfolding write_entries
write_entries_keeps s n other p sec encode es d sound even inside aside r =
    write_from-Reads s n other p sec sound even inside encode [] es d aside r
