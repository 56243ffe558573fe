-- ===== src/Tomb/Coffin/Pack.antt =====
-- writeTar of pkg/tomb/coffin.go: which files of a store an archive holds.
use binpass.Prelude.{
  some_inj, ==-eq, false, List, [], ◌∷◌, ◌++◌, some, Bytes, ◌==◌, bytes_eq, ◌≡◌, ◌≢◌, refl, sym, ap,
  ◌∙◌, subst, arith, Bool-cases, inl, inr, ◌⊎◌, append_assoc,
}
use binpass.Tomb.Tree.{Folder, Node, file, folder, empty, entry, child, find}
use binpass.Tomb.Backends.{coffin_file}
use binpass.Tomb.Coffin.{
  dotted, TarEntry, tar_dir, tar_file, unless_coffin, tar_folder, tar_node, write_tar,
}
use binpass.Tomb.Coffin.Shred.{last_of, dotted-append, within-some}

-- An archive has an entry.
pub Has : TarEntry → List TarEntry → Type 0
Has e [] = ⊥
Has e (x ∷ es) = (x ≡ e) ⊎ Has e es

Has-left : (e : TarEntry) (a b : List TarEntry) → Has e a → Has e (a ++ b)
unfolding Has
Has-left e [] b h = absurd h
Has-left e (x ∷ a) b (inl p) = inl p
Has-left e (x ∷ a) b (inr h) = inr (Has-left e a b h)

Has-right : (e : TarEntry) (a b : List TarEntry) → Has e b → Has e (a ++ b)
unfolding Has
Has-right e [] b h = h
Has-right e (x ∷ a) b h = inr (Has-right e a b h)

-- The path of a name and the names below it, with slashes between them.
pub slashed : Bytes → List Bytes → Bytes
slashed n [] = n
slashed n (m ∷ path) = (n ++ b'/' ∷ []) ++ slashed m path

path_eq : (above n s : Bytes) → ((above ++ n) ++ b'/' ∷ []) ++ s ≡ above ++ ((n ++ b'/' ∷ []) ++ s)
path_eq above n s =
    append_assoc (above ++ n) (b'/' ∷ []) s
    ∙ append_assoc above n (b'/' ∷ s)
    ∙ ap (λ p. above ++ p) (sym (append_assoc n (b'/' ∷ []) s))

-- The archive has what a directory has under a name that is not hidden.
tar_folder-child :
    (e : TarEntry) (above n : Bytes) (x : Node) (d : Folder)
    → dotted (above ++ n) ≡ false
    → child n d ≡ some x
    → Has e (tar_node above n x)
    → Has e (tar_folder above d)
unfolding child tar_folder
tar_folder-child e above n x empty v h u = cc
tar_folder-child e above n x (entry m y rest) v h u =
    let others = tar_folder above rest in
    elim (Bool-cases (n == m)) [
      | inl same ↦
          let there = ap (λ j. dotted (above ++ j)) (sym (==-eq n m same)) ∙ v in
          let y_is_x = some_inj (rw same at h) in
          rw there (
            Has-left e (tar_node above m y) others (
              subst (λ j. Has e (tar_node above j y)) (==-eq n m same)
                (subst (λ z. Has e (tar_node above n z)) (sym y_is_x) u)))
      | inr other ↦
          let later = tar_folder-child e above n x rest v (rw other at h) u in
          elim (Bool-cases (dotted (above ++ m))) [
            | inl hidden ↦ rw hidden later
            | inr shown ↦ rw shown (Has-right e (tar_node above m y) others later)
          ]
    ]

tar_file-unless_coffin :
    (n path c : Bytes)
    → (n == coffin_file) ≡ false
    → Has (tar_file path c) (unless_coffin n (tar_file path c))
unfolding Has
tar_file-unless_coffin n path c other = rw other (inl refl)

tar_folder-find :
    (above n : Bytes) (path : List Bytes) (d : Folder) (c : Bytes)
    → dotted (above ++ n) ≡ false
    → (last_of n path == coffin_file) ≡ false
    → find n path d ≡ some (file c)
    → Has (tar_file (above ++ slashed n path) c) (tar_folder above d)
unfolding find slashed tar_node
tar_folder-find above n [] d c v other h =
    tar_folder-child (tar_file (above ++ n) c) above n (file c) d v h
      (tar_file-unless_coffin n (above ++ n) c other)
tar_folder-find above n (m ∷ path) d c v other h =
    let (inner, here, below) = within-some (child n d) (find m path) (file c) h in
    let deeper =
      tar_folder-find ((above ++ n) ++ b'/' ∷ []) m path inner c (dotted-append (above ++ n) m v)
        other below in
    tar_folder-child (tar_file (above ++ slashed n (m ∷ path)) c) above n (folder inner) d v here (
      Has-right (tar_file (above ++ slashed n (m ∷ path)) c)
        (unless_coffin n (tar_dir (above ++ n))) (tar_folder ((above ++ n) ++ b'/' ∷ []) inner)
        (subst (λ p. Has (tar_file p c) (tar_folder ((above ++ n) ++ b'/' ∷ []) inner))
          (path_eq above n (slashed m path)) deeper))

-- A file that is in the store under a path whose first name is not hidden, and that is not named like
-- the archive, is in the archive under that path with its content.
pub close_packs_shown :
    (d : Folder) (n : Bytes) (path : List Bytes) (c : Bytes)
    → dotted n ≡ false
    → last_of n path ≢ coffin_file
    → find n path d ≡ some (file c)
    → Has (tar_file (slashed n path) c) (write_tar d)
unfolding write_tar
close_packs_shown d n path c v other h = tar_folder-find [] n path d c v (ground (arith, other)) h
