-- ===== src/Sync/Resolve/Kept.antt =====
-- internal/cli/conflicts.go: the strategy `local` keeps what the conflict holds.
use binpass.Prelude.{
  ℕ, true, false, List, [], ◌∷◌, ◌++◌, none, some, Bytes, codes, bytes_eq, ==-other, Result, ok,
  err, ◌≡◌, ◌≢◌, refl, sym, ap, ◌∙◌, All, inl, inr, Option-cases, Bool-cases, subst,
}
use binpass.Prelude.Dict.{erase, lookup-erase}
use binpass.Paths.{rel}
use binpass.Text.{ends_in}
use binpass.Storage.{Disk, first_file, is_dir}
use binpass.Store.{Backends, StoreError, exts, exists, get, opened}
use binpass.Store.Removal.{other_file, remove_lem}
use binpass.Store.Target.{IsSound, find-inside}
use binpass.Store.Laws.{first_file-Apart}
use binpass.Store.Refinement.{Even, apart-exts, first_file-path}
use binpass.Store.Transfer.{transfer, transfer_entry, resolve_dest, after}
use binpass.Store.Transfer.Destination.{transfer_entry_lem}
use binpass.Sync.ConflictName.{conflict_to_original}
use binpass.Sync.Resolve.{resolve_conflict, resolve_local, moved_into, make_room, reported}
use binpass.Sync.Resolve.Local.{local_lem, there-exists}

first_file-erase_other :
    (q file : Bytes) (es : List Bytes) (d : Disk)
    → All (λ e. q ++ e ≢ file) es
    → first_file q es (erase file d) ≡ first_file q es d
unfolding first_file
first_file-erase_other q file [] d u = refl
first_file-erase_other q file (e ∷ es) d (ne, u) =
    rw
      (
        lookup-erase (q ++ e) file d,
        ==-other (q ++ e) file ne,
        first_file-erase_other q file es d u,
      )
      refl

opened-erase :
    (s : Backends) (path file : Bytes) (d : Disk)
    → path ≢ file
    → opened s (erase file d) path ≡ opened s d path
unfolding opened
opened-erase s path file d ne = rw (lookup-erase path file d, ==-other path file ne) refl

-- Another entry is read as before where a file is removed.
get-erase_other :
    (s : Backends) (name q file : Bytes) (d : Disk)
    → rel name ≡ some q
    → All (λ e. q ++ e ≢ file) (exts s.all)
    → get s name (erase file d) ≡ get s name d
unfolding get
get-erase_other s name q file d inside u =
    let es = exts s.all in
    rw
      (
        find-inside name es (erase file d) q inside,
        find-inside name es d q inside,
        first_file-erase_other q file es d u,
      )
      (elim (Option-cases (first_file q es d)) [
        | inl free ↦ rw free refl
        | inr (path, there) ↦
            rw there (opened-erase s path file d (first_file-Apart q file path es d u there))
      ])

nothing_left :
    (s : Backends) (name p : Bytes) (d : Disk)
    → rel name ≡ some p
    → exists s name d ≡ false
    → first_file p (exts s.all) d ≡ none
unfolding exists
nothing_left s name p d inside gone = elim (Option-cases (first_file p (exts s.all) d)) [
  | inl free ↦ free
  | inr (path, there) ↦ (let z = rw (find-inside name (exts s.all) d p inside, there) at gone in cc)
]

reported-after :
    (d e : Disk) (o : Result StoreError Disk) → reported (after d o) ≡ (e, none) → o ≡ ok e
reported-after d e (ok k) h = ap (λ r. ok r.0) h
reported-after d e (err x) h = cc

-- A move of an entry to a name that is no folder.
moved_entry :
    (s : Backends) (path original : Bytes) (d e : Disk)
    → is_dir path d ≡ false
    → is_dir original d ≡ false
    → ends_in b'/' original ≡ false
    → reported (transfer s path original true d) ≡ (e, none)
    → transfer_entry s path original true d ≡ ok e
unfolding transfer resolve_dest
moved_entry s path original d e folder free plain h = elim (Bool-cases (exists s path d)) [
  | inl here ↦
      reported-after d e (transfer_entry s path original true d)
        (rw (folder, here, free, plain) at h)
  | inr gone ↦ (let z = rw (folder, gone) at h in cc)
]

-- Where resolving a conflict by the strategy `local` reports no error, the original name is read as
-- the conflict was read before. The original is an entry with one file, neither name is one of a
-- folder, and the two are different entries; the backends decrypt what they have encrypted, are
-- told apart by their extensions, and the extensions have one length.
pub resolve_local_keeps :
    (s : Backends) (n : ℕ) (path p q file : Bytes) (d e : Disk)
    → IsSound s
    → Even n s.all
    → rel (conflict_to_original path) ≡ some p
    → rel path ≡ some q
    → q ≢ p
    → first_file p (exts s.all) d ≡ some file
    → other_file p file (exts s.all) d ≡ false
    → is_dir path (erase file d) ≡ false
    → is_dir (conflict_to_original path) (erase file d) ≡ false
    → ends_in b'/' (conflict_to_original path) ≡ false
    → resolve_conflict s path (codes "local") d ≡ (e, none)
    → get s (conflict_to_original path) e ≡ get s path d
unfolding resolve_local moved_into make_room
resolve_local_keeps s n path p q file d e sound even inside inside_q ne there alone folder free
      plain h =
    let original = conflict_to_original path in
    let (removed, left) = remove_lem s original p file d inside there in
    let here = there-exists s original p file d inside there in
    let run = rw (here, removed) at (sym (local_lem s path d) ∙ h) in
    let (x, file_eq, l) = first_file-path n p file s.all d even there in
    let apart =
      subst (λ f. All (λ y. q ++ y ≢ f) (exts s.all)) (sym file_eq)
        (apart-exts n p q x s.all even l ne) in
    transfer_entry_lem s path original p true (erase file d) e sound inside
      (nothing_left s original p (erase file d) inside (left ∙ alone))
      (moved_entry s path original (erase file d) e folder free plain run)
    ∙ get-erase_other s path q file d inside_q apart
