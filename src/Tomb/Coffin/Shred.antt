-- ===== src/Tomb/Coffin/Shred.antt =====
-- writeTar and shredDir of pkg/tomb/coffin.go: what a close packs and what it leaves behind.
use binpass.Prelude.{
  Bool, true, false, not, ◌||◌, List, [], ◌∷◌, ◌++◌, Option, none, some, Bytes, ◌==◌, bytes_eq,
  nat_eq, ◌≡◌, ◌≢◌, refl, ap, ◌∙◌, arith, All, Bool-cases, ◌⊎◌, inl, inr,
}
use binpass.Text.{has_prefix}
use binpass.Tomb.Tree.{
  Folder, Node, file, link, folder, empty, entry, child, find, within, with_entry,
}
use binpass.Tomb.Backends.{coffin_file}
use binpass.Tomb.Coffin.{
  dotted, TarEntry, tar_dir, tar_file, tar_link, unless_coffin, tar_folder, tar_node, write_tar,
  kept_name, Links, shred_folder, shred_node,
}

-- The last name of a path.
abbrev pub last_of : Bytes → List Bytes → Bytes
last_of n [] = n
last_of n (m ∷ path) = last_of m path

abbrev pub name_of : TarEntry → Bytes
name_of (tar_dir n) = n
name_of (tar_file n _) = n
name_of (tar_link n) = n

-- The entries of an archive are not hidden.
abbrev pub Visible : List TarEntry → Type 0
Visible = All (λ e. dotted (name_of e) ≡ false)

Visible-append : (a b : List TarEntry) → Visible a → Visible b → Visible (a ++ b)
Visible-append [] b _ v = v
Visible-append (e ∷ a) b (d, u) v = (d, Visible-append a b u v)

pub dotted-append : (p q : Bytes) → dotted p ≡ false → dotted ((p ++ b'/' ∷ []) ++ q) ≡ false
dotted-append [] q h = refl
dotted-append (c ∷ p) q h = h

unless_coffin-Visible :
    (n : Bytes) (e : TarEntry) → dotted (name_of e) ≡ false → Visible (unless_coffin n e)
unless_coffin-Visible n e h = elim (Bool-cases (n == coffin_file)) [
  | inl same ↦ rw same tt
  | inr other ↦ rw other (h, tt)
]

mutual
  unfolding tar_folder tar_node

  -- Below a path that is not hidden, nothing in the archive is.
  tar_node-Visible :
      (above n : Bytes) (x : Node) → dotted (above ++ n) ≡ false → Visible (tar_node above n x)
  tar_node-Visible above n (file content) h =
      unless_coffin-Visible n (tar_file (above ++ n) content) h
  tar_node-Visible above n (link _) h = tt
  tar_node-Visible above n (folder d) h =
      Visible-append (unless_coffin n (tar_dir (above ++ n)))
        (tar_folder ((above ++ n) ++ b'/' ∷ []) d)
        (unless_coffin-Visible n (tar_dir (above ++ n)) h)
        (tar_folder-Visible ((above ++ n) ++ b'/' ∷ []) d)

  tar_folder-Visible : (above : Bytes) (d : Folder) → Visible (tar_folder above d)
  tar_folder-Visible above empty = tt
  tar_folder-Visible above (entry n x rest) =
      let others = tar_folder-Visible above rest in
      let this = tar_node-Visible above n x in
      elim (Bool-cases (dotted (above ++ n))) [
        | inl hidden ↦ rw hidden others
        | inr shown ↦
            rw shown
              (Visible-append (tar_node above n x) (tar_folder above rest) (this shown) others)
      ]

has_prefix-dotted :
    (n top : Bytes) → dotted top ≡ true → dotted n ≡ false → has_prefix n top ≡ false
unfolding has_prefix
has_prefix-dotted n [] h v = cc
has_prefix-dotted [] (t ∷ top) h v = refl
has_prefix-dotted (c ∷ n) (t ∷ top) h v = ground arith

Visible-Lacking :
    (top : Bytes)
    → dotted top ≡ true
    → (es : List TarEntry) → Visible es
    → All (λ e. has_prefix (name_of e) top ≡ false) es
Visible-Lacking top h [] _ = tt
Visible-Lacking top h (e ∷ es) (v, u) =
    (has_prefix-dotted (name_of e) top h v, Visible-Lacking top h es u)

child-with_entry :
    (n m : Bytes) (o : Option Node) (rest : Folder) (x : Node)
    → child n (with_entry m o rest) ≡ some x
    → ((n ≡ m) × (o ≡ some x)) ⊎ (child n rest ≡ some x)
unfolding child
child-with_entry n m none rest x h = inr h
child-with_entry n m (some y) rest x h = ground arith

pub within-some :
    (o : Option Node) (f : Folder → Option Node) (x : Node)
    → within o f ≡ some x
    → (d : Folder) × (o ≡ some (folder d)) × (f d ≡ some x)
within-some none f x h = cc
within-some (some (file _)) f x h = cc
within-some (some (link _)) f x h = cc
within-some (some (folder d)) f x h = (d, refl, h)

module _ (links : Links) where
  -- What a shredded directory has under a name is what shredding left of something of that name.
  child-shred_folder :
      (n : Bytes) (d : Folder) (x : Node)
      → child n (shred_folder links d) ≡ some x
      → (y : Node) × (shred_node links n y ≡ some x)
  unfolding child shred_folder
  child-shred_folder n empty x h = cc
  child-shred_folder n (entry m y rest) x h =
      elim (child-with_entry n m (shred_node links m y) (shred_folder links rest) x h) [
        | inl (same, left) ↦ (y, ap (λ k. shred_node links k y) same ∙ left)
        | inr later ↦ child-shred_folder n rest x later
      ]

  shred_node-file :
      (n : Bytes) (y : Node) (c : Bytes) → shred_node links n y ≡ some (file c) → kept_name n ≡ true
  unfolding shred_node
  shred_node-file n (file _) c h = ground arith
  shred_node-file n (link t) c h = ground arith
  shred_node-file n (folder d) c h = ground arith

  shred_node-folder :
      (n : Bytes) (y : Node) (e : Folder)
      → shred_node links n y ≡ some (folder e)
      → (d : Folder) × (shred_folder links d ≡ e)
  unfolding shred_node
  shred_node-folder n (file _) e h = ground arith
  shred_node-folder n (link t) e h = ground arith
  shred_node-folder n (folder d) e h = (d, ground arith)

  -- A file that shredding leaves has a name that is kept.
  find-shred_folder :
      (n : Bytes) (path : List Bytes) (d : Folder) (c : Bytes)
      → find n path (shred_folder links d) ≡ some (file c)
      → kept_name (last_of n path) ≡ true
  unfolding find
  find-shred_folder n [] d c h =
      let (y, left) = child-shred_folder n d (file c) h in shred_node-file n y c left
  find-shred_folder n (m ∷ path) d c h =
      let (e, here, below) =
        within-some (child n (shred_folder links d)) (find m path) (file c) h in
      let (y, left) = child-shred_folder n d (folder e) here in
      let (inner, same) = shred_node-folder n y e left in
      find-shred_folder m path inner c (ap (find m path) same ∙ below)

  -- A regular file that lies below a hidden directory under a name that shredding does not keep is
  -- lost: the archive has no entry whose path begins with that directory, and no file of that path is
  -- left in the store.
  pub close_loses_hidden :
      (d : Folder) (top : Bytes) (path : List Bytes) (c : Bytes)
      → dotted top ≡ true
      → kept_name (last_of top path) ≡ false
      → All (λ e. has_prefix (name_of e) top ≡ false) (write_tar d)
        × (find top path (shred_folder links d) ≢ some (file c))
  unfolding write_tar
  close_loses_hidden d top path c hidden k = (
    Visible-Lacking top hidden (tar_folder [] d) (tar_folder-Visible [] d),
    λ h. (let named = find-shred_folder top path d c h in cc),
  )

  -- What shredding leaves of a node, and of a directory.
  unfoldable mutual
    pub survives_node : Bytes → Node → Bool
    survives_node n (file _) = kept_name n
    survives_node n (link t) = kept_name n || not (links.resolves t)
    survives_node n (folder d) = kept_name n || survives d

    pub survives : Folder → Bool
    survives empty = false
    survives (entry n x rest) = survives_node n x || survives rest
