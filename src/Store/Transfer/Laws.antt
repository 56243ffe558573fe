-- ===== src/Store/Transfer/Laws.antt =====
-- pkg/store/transfer.go: a folder that is moved.

use binpass.Prelude.{
  ok_inj, true, false, List, [], ◌∷◌, ◌++◌, Option, none, some, Bytes, codes, ◌==◌, bytes_eq,
  ==-other, Result, ok, err, ◌≡◌, ◌≢◌, inl, inr, refl, sym, ap, ◌∙◌, arith, append_assoc,
  Bool-cases,
}
use binpass.Prelude.Dict.{lookup, erase, lookup-erase}
use binpass.Paths.{rel}
use binpass.Text.{has_prefix}
use binpass.Text.Laws.{has_prefix-append}
use binpass.Storage.{Disk, FindError, Entry, first_file, is_below, drop_below, entries, dir_path}
use binpass.Store.{Backends, StoreError, exts, get, not_found}
use binpass.Store.Target.{find-inside}
use binpass.Store.Transfer.{
  remove_dir, transfer_dir, entries_moved, removed_too, after, transfer_all, resolve_dest,
}

differ : (root path q : Bytes) → is_below root path ≡ true → is_below root q ≡ false → path ≢ q
differ root path q h k same = (let e = ap (is_below root) same in cc)

lookup-drop_below :
    (root path : Bytes) (d : Disk)
    → is_below root path ≡ true
    → lookup path (drop_below root d) ≡ none
unfolding lookup drop_below
lookup-drop_below root path [] h = refl
lookup-drop_below root path ((q, c) ∷ d) h = elim (Bool-cases (is_below root q)) [
  | inl below ↦ rw below (lookup-drop_below root path d h)
  | inr beside ↦
      rw (beside, ==-other path q (differ root path q h beside)) (lookup-drop_below root path d h)
]

-- Nothing is found below a removed directory.
first_file-below :
    (p : Bytes) (es : List Bytes) (root : Bytes) (d : Disk)
    → ((e : Bytes) → is_below root (p ++ e) ≡ true)
    → first_file p es (erase root (drop_below root d)) ≡ none
unfolding first_file
first_file-below p [] root d h = refl
first_file-below p (e ∷ es) root d h =
    let gone = lookup-drop_below root (p ++ e) d (h e) in
    rw (lookup-erase (p ++ e) root (drop_below root d), gone, first_file-below p es root d h) ground
      arith

remove_dir-ok :
    (from f : Bytes) (d d' : Disk)
    → rel from ≡ some f
    → (f == codes ".") ≡ false
    → remove_dir from d ≡ ok d'
    → erase f (drop_below f d) ≡ d'
unfolding remove_dir dir_path
remove_dir-ok from f d d' inside ne h = ok_inj (rw (inside, ne) at h)

after-none : (d d' : Disk) (r : Result StoreError Disk) → after d r ≡ (d', none) → r ≡ ok d'
after-none d d' (ok e) h = ap (λ x. ok (x.0)) h
after-none d d' (err e) h = cc

removed_too-none :
    (from : Bytes) (d' : Disk) (r : Disk × Option StoreError)
    → removed_too true from r ≡ (d', none)
    → (e : Disk) × (remove_dir from e ≡ ok d')
unfolding removed_too
removed_too-none from d' (d, some e) h = cc
removed_too-none from d' (d, none) h = (d, after-none d d' (remove_dir from d) h)

entries_moved-none :
    (s : Backends) (from to : Bytes) (d d' : Disk) (r : Result FindError (List Entry))
    → entries_moved s from to true d r ≡ (d', none)
    → (e : Disk) × (remove_dir from e ≡ ok d')
unfolding entries_moved
entries_moved-none s from to d d' (err e) h = cc
entries_moved-none s from to d d' (ok es) h =
    removed_too-none from d' (transfer_all s from (resolve_dest from to d) true es d) h

is_below-append :
    (f x e : Bytes) → (f == codes ".") ≡ false → is_below f ((f ++ b'/' ∷ x) ++ e) ≡ true
is_below-append f x e ne =
    rw (ne, append_assoc f (b'/' ∷ x) e)
      (ap (λ q. has_prefix q (f ++ b'/' ∷ [])) (sym (append_assoc f (b'/' ∷ []) (x ++ e)))
        ∙ has_prefix-append (f ++ b'/' ∷ []) (x ++ e))

-- After a folder that is not the root was moved without an error, no entry is found under a name
-- below it: wherever the destination was, inside of the folder included.
pub transfer_dir_leaves_nothing :
    (s : Backends) (from to f name x : Bytes) (d d' : Disk)
    → rel from ≡ some f
    → f ≢ codes "."
    → rel name ≡ some (f ++ b'/' ∷ x)
    → transfer_dir s from to true d ≡ (d', none)
    → get s name d' ≡ err not_found
unfolding transfer_dir get
transfer_dir_leaves_nothing s from to f name x d d' inside ne below h =
    let (e, removed) = entries_moved-none s from to d d' (entries from (exts s.all) d) h in
    let left = remove_dir-ok from f e d' inside (==-other f (codes ".") ne) removed in
    let p = f ++ b'/' ∷ x in
    let free =
      first_file-below p (exts s.all) f e
        (λ y. is_below-append f x y (==-other f (codes ".") ne)) in
    rw (find-inside name (exts s.all) d' p below, ap (first_file p (exts s.all)) (sym left) ∙ free)
      refl
