-- ===== src/Tomb/Coffin/Run/Laws.antt =====
-- Close and Open of pkg/tomb/coffin.go: what a store is after it has been closed.
use binpass.Prelude.{
  ==-same, ==-eq, ℕ, Bool, true, false, not, ◌||◌, ◌&&◌, List, Option, none, some, Bytes, ◌==◌,
  bytes_eq, if◌then◌else◌, contains, nat_eq, ◌≡◌, refl, sym, ap, ◌∙◌, arith, Bool-cases, inl, inr,
}
use binpass.Tomb.Tree.{
  Folder, Node, file, link, folder, empty, entry, child, is_empty, with_entry, put_file, drop_entry,
}
use binpass.Tomb.Backends.{coffin_file, is_some, has_container, detect_backend}
use binpass.Tomb.Coffin.{
  dotted, containers, has_plaintext, TarEntry, write_tar, kept_name, Links, shred_folder,
  shred_node,
}
use binpass.Tomb.Coffin.Shred.{survives, survives_node}
use binpass.Tomb.Coffin.Run.{
  World, read_recipients, rename, renamed, pack_encrypt, written, close, closed_for, packed_as,
  swapped, open_check, state_check, is_open, status_open, already_open, tmp_file, writing_file,
}

-- A name that a listing shows and that is no container.
abbrev shows : Bytes → Bool
shows n = not (dotted n || contains containers n)

shows-coffin : shows coffin_file ≡ false
unfolding bytes_eq
shows-coffin = refl

kept-coffin : kept_name coffin_file ≡ true
unfolding bytes_eq
kept-coffin = refl

hidden_too : (k n : Bytes) → (k == n) ≡ true → shows k ≡ false → shows n ≡ false
hidden_too k n same h = ap shows (sym (==-eq k n same)) ∙ h

is_empty-with_entry :
    (n : Bytes) (o : Option Node) (rest : Folder)
    → is_empty (with_entry n o rest) ≡ (not (is_some o) && is_empty rest)
is_empty-with_entry n none rest = refl
is_empty-with_entry n (some x) rest = refl

has_plaintext-with_entry :
    (n : Bytes) (o : Option Node) (rest : Folder)
    → has_plaintext (with_entry n o rest) ≡ ((shows n && is_some o) || has_plaintext rest)
unfolding has_plaintext
has_plaintext-with_entry n none rest = ground arith
has_plaintext-with_entry n (some x) rest = ground arith

module _ (links : Links) where
  mutual
    unfolding shred_folder shred_node survives survives_node

    -- Shredding leaves something exactly if something survives.
    is_empty-shred_folder : (d : Folder) → is_empty (shred_folder links d) ≡ not (survives links d)
    is_empty-shred_folder empty = refl
    is_empty-shred_folder (entry n x rest) =
        is_empty-with_entry n (shred_node links n x) (shred_folder links rest)
        ∙ ground (arith, is_empty-shred_folder rest, shred_node-survives n x)

    shred_node-survives :
        (n : Bytes) (x : Node) → is_some (shred_node links n x) ≡ survives_node links n x
    shred_node-survives n (file c) = ground arith
    shred_node-survives n (link t) = ground arith
    shred_node-survives n (folder d) = ground (arith, is_empty-shred_folder d)

  -- Something survives in the store that a listing shows and that is no container.
  pub shown_survivor : Folder → Bool
  shown_survivor empty = false
  shown_survivor (entry n x rest) = (shows n && survives_node links n x) || shown_survivor rest

  has_plaintext-shred_folder :
      (d : Folder) → has_plaintext (shred_folder links d) ≡ shown_survivor d
  unfolding has_plaintext shred_folder shown_survivor
  has_plaintext-shred_folder empty = refl
  has_plaintext-shred_folder (entry n x rest) =
      has_plaintext-with_entry n (shred_node links n x) (shred_folder links rest)
      ∙ ground (arith, has_plaintext-shred_folder rest, shred_node-survives n x)

-- Entries of a directory whose name is new.
drop_entry_fresh : (n : Bytes) (d : Folder) → child n d ≡ none → drop_entry n d ≡ d
unfolding child drop_entry
drop_entry_fresh n empty h = refl
drop_entry_fresh n (entry m x rest) h = ground (arith, drop_entry_fresh n rest)

drop_entry-put_file :
    (n c : Bytes) (d : Folder) → child n d ≡ none → drop_entry n (put_file n c d) ≡ d
unfolding child drop_entry put_file
drop_entry-put_file n c empty h = ground arith
drop_entry-put_file n c (entry m x rest) h = ground (arith, drop_entry-put_file n c rest)

child-put_file :
    (m n c : Bytes) (d : Folder)
    → child m (put_file n c d) ≡ (if m == n then some (file c) else child m d)
unfolding child put_file
child-put_file m n c empty = refl
child-put_file m n c (entry k x rest) = ground (arith, child-put_file m n c rest)

abbrev pub is_folder : Option Node → Bool
is_folder none = false
is_folder (some (file _)) = false
is_folder (some (link _)) = false
is_folder (some (folder _)) = true

renamed-file :
    (o : Option Node) (source name c : Bytes) (d : Folder)
    → is_folder o ≡ false
    → renamed (some (file c)) o source name d ≡ some (put_file name c (drop_entry source d))
unfolding renamed
renamed-file none source name c d h = refl
renamed-file (some (file _)) source name c d h = refl
renamed-file (some (link _)) source name c d h = refl
renamed-file (some (folder _)) source name c d h = cc

-- A new file takes the name of another one, and leaves nothing else behind.
rename-put_file :
    (source name c : Bytes) (d : Folder)
    → child source d ≡ none
    → (name == source) ≡ false
    → is_folder (child name d) ≡ false
    → rename source name (put_file source c d) ≡ some (put_file name c d)
unfolding rename
rename-put_file source name c d fresh ne free =
    rw (child-put_file source source c d, child-put_file name source c d, ne, ==-same source)
      (renamed-file (child name d) source name c (put_file source c d) free
        ∙ ap (λ e. some (put_file name c e)) (drop_entry-put_file source c d fresh))

module _ (links : Links) (seal : List Bytes → List TarEntry → Option Bytes) where
  pack_encrypt-sealed :
      (d : Folder) (rcp : List Bytes) (sealed : Bytes)
      → seal rcp (write_tar d) ≡ some sealed
      → child writing_file d ≡ none
      → child tmp_file d ≡ none
      → pack_encrypt links seal d writing_file tmp_file rcp ≡ some (put_file tmp_file sealed d)
  unfolding pack_encrypt written bytes_eq
  pack_encrypt-sealed d rcp sealed h fresh free =
      rw (h, fresh) (rename-put_file writing_file tmp_file sealed d fresh refl (ap is_folder free))

  close-sealed :
      (w : World) (rcp : List Bytes) (sealed : Bytes)
      → has_plaintext w.dir ≡ true
      → read_recipients links w.dir ≡ some rcp
      → seal rcp (write_tar w.dir) ≡ some sealed
      → child writing_file w.dir ≡ none
      → child tmp_file w.dir ≡ none
      → is_folder (child coffin_file w.dir) ≡ false
      → close links seal w ≡ (
        record { dir = shred_folder links (put_file coffin_file sealed w.dir); state = none },
        none,
      )
  unfolding close closed_for packed_as swapped bytes_eq
  close-sealed w rcp sealed p r h fresh free plain =
      rw
        (
          p,
          r,
          pack_encrypt-sealed w.dir rcp sealed h fresh free,
          rename-put_file tmp_file coffin_file sealed w.dir free refl plain,
        )
        refl

-- A file under a name that is not shown does not count.
shown_survivor-put_file :
    (links : Links) (k c : Bytes) (d : Folder)
    → shows k ≡ false
    → shown_survivor links (put_file k c d) ≡ shown_survivor links d
unfolding shown_survivor put_file
shown_survivor-put_file links k c empty h = rw h refl
shown_survivor-put_file links k c (entry n x rest) h = elim (Bool-cases (k == n)) [
  | inl same ↦ rw (same, h, hidden_too k n same h) refl
  | inr other ↦ rw other (
      ap (λ b. (shows n && survives_node links n x) || b)
        (shown_survivor-put_file links k c rest h))
]

child-with_entry :
    (n m : Bytes) (o : Option Node) (rest : Folder)
    → is_some (if n == m then o else child n rest) ≡ true
    → is_some (child n (with_entry m o rest)) ≡ true
unfolding child
child-with_entry n m none rest h = ground arith
child-with_entry n m (some y) rest h = ground arith

shred_node-kept :
    (links : Links) (n : Bytes) (x : Node)
    → kept_name n ≡ true
    → is_some (shred_node links n x) ≡ true
unfolding shred_node
shred_node-kept links n (file _) k = rw k refl
shred_node-kept links n (link _) k = rw k refl
shred_node-kept links n (folder _) k = rw k refl

-- What has a name that is kept is there after shredding.
child-shred_folder :
    (links : Links) (n : Bytes) (d : Folder)
    → kept_name n ≡ true
    → is_some (child n d) ≡ true
    → is_some (child n (shred_folder links d)) ≡ true
unfolding child shred_folder
child-shred_folder links n empty k h = cc
child-shred_folder links n (entry m x rest) k h =
    child-with_entry n m (shred_node links m x) (shred_folder links rest)
      (elim (Bool-cases (n == m)) [
        | inl same ↦ rw same (
            ap (λ j. is_some (shred_node links j x)) (sym (==-eq n m same))
            ∙ shred_node-kept links n x k)
        | inr other ↦ rw other (child-shred_folder links n rest k (rw other at h))
      ])

-- After a close that is given recipients and can encrypt, where there is no temporary file yet and
-- the archive is no directory, the store counts as open exactly if something in it that a listing
-- shows survives the shredding; every later open is then refused, and none otherwise.
pub close_hides_iff :
    (links : Links) (seal : List Bytes → List TarEntry → Option Bytes) (pid_is_dead : ℕ → Bool)
    (w : World) (rcp : List Bytes) (sealed : Bytes)
    → has_plaintext w.dir ≡ true
    → read_recipients links w.dir ≡ some rcp
    → seal rcp (write_tar w.dir) ≡ some sealed
    → child writing_file w.dir ≡ none
    → child tmp_file w.dir ≡ none
    → is_folder (child coffin_file w.dir) ≡ false
    → ((close links seal w).1 ≡ none)
      × (is_open pid_is_dead (close links seal w).0 ≡ shown_survivor links w.dir)
      × ((open_check pid_is_dead (close links seal w).0).1
          ≡ (if shown_survivor links w.dir then some already_open else none))
unfolding is_open status_open has_container detect_backend open_check state_check
close_hides_iff links seal pid_is_dead w rcp sealed p r h fresh free plain =
    let left = put_file coffin_file sealed w.dir in
    let here =
      child-shred_folder links coffin_file left (kept-coffin)
        (rw (child-put_file coffin_file coffin_file sealed w.dir, ==-same coffin_file) refl) in
    let shown =
      has_plaintext-shred_folder links left
      ∙ shown_survivor-put_file links coffin_file sealed w.dir shows-coffin in
    rw (close-sealed links seal w rcp sealed p r h fresh free plain)
      (refl, rw (here, shown) refl, rw (here, shown) (ground arith))
