-- ===== src/Store/Transfer/Destination.antt =====
-- transferEntry of pkg/store/transfer.go: what is read at the destination afterwards.
use binpass.Prelude.{
  ok_inj, tail_eq, Bool, true, false, List, [], ◌∷◌, ◌++◌, none, some, Bytes, ◌==◌, bytes_eq, ==-eq,
  ==-same, ok, ◌>>=◌, ◌≡◌, ◌≢◌, inl, inr, refl, subst, sym, ap, ◌∙◌, arith, contains, Bool-cases,
}
use binpass.Prelude.Dict.{lookup}
use binpass.Paths.{rel}
use binpass.Storage.{Disk, first_file, find, path_of, ext_of, nonempty}
use binpass.Store.{Backends, exts, backend_for, get, opened, or_error, decrypt_failed}
use binpass.Store.Target.{IsSound, find-inside, backend_for-All, backend_for-ext, contains-exts}
use binpass.Store.Search.{ext_of-append}
use binpass.Store.Transfer.{transfer_entry}
use binpass.Store.Transfer.Single.{Carries, at_path, transfer_entry-Carries}

-- A destination that had no file has the one that was carried there.
first_file-Carries :
    (remove : Bool) (src p ext content : Bytes) (es : List Bytes) (d e : Disk)
    → Carries remove src (p ++ ext) content d e
    → contains es ext ≡ true
    → first_file p es d ≡ none
    → first_file p es e ≡ some (p ++ ext)
unfolding first_file
first_file-Carries remove src p ext content [] d e c k h = cc
first_file-Carries remove src p ext content (x ∷ es) d e c k h =
    elim (Bool-cases (p ++ x == p ++ ext)) [
      | inl same ↦
          rw (at_path remove src (p ++ ext) content d e c (p ++ x), same)
            (ap some (==-eq (p ++ x) (p ++ ext) same))
      | inr other ↦
          rw (at_path remove src (p ++ ext) content d e c (p ++ x), other)
            (ground (arith, first_file-Carries remove src p ext content es d e c, h, k, other))
    ]

-- An entry that is moved or copied without an error, to a name under which there was nothing, is read
-- there as it was read before.
pub transfer_entry_lem :
    (s : Backends) (from to p : Bytes) (remove : Bool) (d e : Disk)
    → IsSound s
    → rel to ≡ some p
    → first_file p (exts s.all) d ≡ none
    → transfer_entry s from to remove d ≡ ok e
    → get s to e ≡ get s from d
unfolding path_of get opened
transfer_entry_lem s from to p remove d e sound inside free h =
    let (sec, src, b, dst, content, got, f, k, at_dst, opens, carries) =
      transfer_entry-Carries s from to remove d e sound h in
    let dst_eq = ok_inj (rw inside at at_dst) in
    let b_ext = backend_for-ext s.all (ext_of src) b k in
    let known = ap (backend_for s.all) b_ext ∙ k in
    let (proper, long) =
      backend_for-All (λ b. (ext_of b.ext ≡ b.ext) × (nonempty b.ext ≡ true)) s.all (ext_of src) b
        sound.proper k in
    let there = subst (λ x. Carries remove src x content d e) (sym dst_eq) carries in
    let hit =
      first_file-Carries remove src p b.ext content (exts s.all) d e there
        (contains-exts s.all b.ext b known) free in
    rw
      (
        find-inside to (exts s.all) e p inside,
        hit,
        ext_of-append p b.ext proper long,
        known,
        at_path remove src (p ++ b.ext) content d e there (p ++ b.ext),
        ==-same (p ++ b.ext),
        opens,
      )
      (sym got)

append_cancel : (p a b : Bytes) → p ++ a ≡ p ++ b → a ≡ b
append_cancel [] a b h = h
append_cancel (c ∷ p) a b h = append_cancel p a b (tail_eq h)

-- A file that is neither the source nor the destination.
untouched :
    (remove : Bool) (src dst content path : Bytes) (d e : Disk)
    → Carries remove src dst content d e
    → path ≢ dst
    → path ≢ src
    → lookup path e ≡ lookup path d
untouched true src dst content path d e c nd ns =
    at_path true src dst content d e c path ∙ ground (arith, nd, ns)
untouched false src dst content path d e c nd ns =
    at_path false src dst content d e c path ∙ ground (arith, nd)

-- A file of the first format is the one that is read.
opened-at :
    (s : Backends) (path old : Bytes) (d : Disk)
    → lookup path d ≡ some old
    → opened s d path ≡ (
        backend_for s.all (ext_of path) >>= λ b.
        or_error decrypt_failed (b.decrypt old) >>= λ plain. ok (record { raw = plain }))
unfolding opened
opened-at s path old d there = rw (opened, there) refl

get-first :
    (s : Backends) (name p first old : Bytes) (others : List Bytes) (d : Disk)
    → rel name ≡ some p
    → exts s.all ≡ first ∷ others
    → lookup (p ++ first) d ≡ some old
    → get s name d ≡ (
        backend_for s.all (ext_of (p ++ first)) >>= λ b.
        or_error decrypt_failed (b.decrypt old) >>= λ plain. ok (record { raw = plain }))
unfolding get opened first_file
get-first s name p first old others d inside order there =
    rw (find-inside name (exts s.all) d p inside, order, there)
      (opened-at s (p ++ first) old d there)

-- An entry of another format that stands first under the destination's name hides what is carried
-- there: the transfer reports no error, and the name is read as before.
pub transfer_entry_hidden :
    (s : Backends) (from to p first src old : Bytes) (others : List Bytes) (remove : Bool)
    (d e : Disk)
    → IsSound s
    → rel to ≡ some p
    → exts s.all ≡ first ∷ others
    → lookup (p ++ first) d ≡ some old
    → find from (exts s.all) d ≡ ok src
    → ext_of src ≢ first
    → p ++ first ≢ src
    → transfer_entry s from to remove d ≡ ok e
    → get s to e ≡ get s to d
unfolding path_of
transfer_entry_hidden s from to p first src old others remove d e sound inside order there f ne ns
      h =
    let (sec, source, b, dst, content, got, g, k, at_dst, opens, carries) =
      transfer_entry-Carries s from to remove d e sound h in
    let source_eq = ok_inj (sym f ∙ g) in
    let b_ext = backend_for-ext s.all (ext_of source) b k in
    let dst_eq = ok_inj (rw inside at at_dst) in
    let other_path = (λ (q : p ++ first ≡ dst).
      ne (ap ext_of source_eq ∙ sym b_ext ∙ sym (append_cancel p first b.ext (q ∙ sym dst_eq)))) in
    let kept =
      untouched remove source dst content (p ++ first) d e carries other_path
        (λ q. ns (q ∙ sym source_eq)) in
    get-first s to p first old others e inside order (kept ∙ there)
    ∙ sym (get-first s to p first old others d inside order there)
