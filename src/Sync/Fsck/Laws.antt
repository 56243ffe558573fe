-- ===== src/Sync/Fsck/Laws.antt =====
-- pkg/sync/fsck.go: what a check that reports nothing has shown.
use binpass.Prelude.{
  Bool, List, [], ◌∷◌, ◌++◌, Option, none, some, Bytes, bytes_eq, ◌≡◌, ◌≢◌, ◌⊎◌, refl, sym, ◌∙◌, ap,
  arith,
}
use binpass.Prelude.Dict.{Dict, lookup, lookup-cons, lookup-nil}
use binpass.Sync.State.{FilePath, FileState, Snapshot, no_digest, Digest}
use binpass.Sync.Scan.{Entries}
use binpass.Sync.Fsck.{
  scan_disk, DiskEntry, drifts, check_disk, orphans, check_base, check_recipients, check_location,
  fsck,
}

parts-nil : {A : Type 0} (xs ys : List A) → (xs ++ ys) ≡ [] → (xs ≡ []) × (ys ≡ [])
parts-nil [] ys h = (refl, h)
parts-nil (x ∷ xs) ys h = absurd (ground arith)

none-ne-some : {A : Type 0} {a : A} → none ≢ some a
none-ne-some h = cc

some_injective : (i j : DiskEntry) → some i ≡ some j → i ≡ j
some_injective i j h = cc

-- The database knows the file with its size, and with its digest where both digests are known.
abbrev pub Tracked : DiskEntry → Option FileState → Type 0
Tracked info o =
    (s : FileState) × (o ≡ some s)
    × (info.size ≡ s.size)
    × ((s.hash ≡ no_digest) ⊎ ((info.hash ≡ no_digest) ⊎ (info.hash ≡ s.hash)))

drifts-Tracked :
    (p : FilePath) (info : DiskEntry) (o : Option FileState) → drifts p info o ≡ [] → Tracked info o
unfolding drifts
drifts-Tracked p info none h = absurd (ground arith)
drifts-Tracked p info (some s) h = (s, refl, ground arith, ground arith)

Tracked-at :
    (p q : FilePath) (i info : DiskEntry) (base : Snapshot)
    → p ≡ q
    → some i ≡ some info
    → Tracked i (lookup q base)
    → Tracked info (lookup p base)
Tracked-at p q i info base same found h = rw (same, ← some_injective i info found) h

orphans-present :
    (p : FilePath) (s : FileState) (o : Option DiskEntry) (all : Dict FilePath DiskEntry)
    → orphans p s o all ≡ []
    → (i : DiskEntry) × (o ≡ some i)
unfolding orphans
orphans-present p s none all h = absurd (ground arith)
orphans-present p s (some i) all h = (i, refl)

check_disk-Tracked :
    (files : Dict FilePath DiskEntry) (base : Snapshot) (p : FilePath) (info : DiskEntry)
    → check_disk files base ≡ []
    → lookup p files ≡ some info
    → Tracked info (lookup p base)
unfolding check_disk
check_disk-Tracked [] base p info clean found = absurd (none-ne-some (sym (lookup-nil p) ∙ found))
check_disk-Tracked ((q, i) ∷ files) base p info clean found =
    let (here, rest) = parts-nil (drifts q i (lookup q base)) (check_disk files base) clean in
    elim (bytes_eq.dec p q) [
      | yes same ↦
          let found_here = sym (lookup-cons p q i files ∙ ground (arith, same)) ∙ found in
          Tracked-at p q i info base same found_here (drifts-Tracked q i (lookup q base) here)
      | no other ↦
          check_disk-Tracked files base p info rest (ground (arith, lookup-cons p q i files))
    ]

check_base-present :
    (base : Snapshot) (all : Dict FilePath DiskEntry) (p : FilePath) (s : FileState)
    → check_base base all ≡ []
    → lookup p base ≡ some s
    → (i : DiskEntry) × (lookup p all ≡ some i)
unfolding check_base
check_base-present [] all p s clean found = absurd (none-ne-some (sym (lookup-nil p) ∙ found))
check_base-present ((q, r) ∷ base) all p s clean found =
    let (here, rest) = parts-nil (orphans q r (lookup q all) all) (check_base base all) clean in
    elim (bytes_eq.dec p q) [
      | yes same ↦
          let (i, there) = orphans-present q r (lookup q all) all here in
          (i, ap (λ k. lookup k all) same ∙ there)
      | no other ↦ check_base-present base all p s rest (ground (arith, lookup-cons p q r base))
    ]

-- What the disk and the database have of a path, where they agree.
abbrev pub Agrees : Option DiskEntry → Option FileState → Type 0
Agrees none none = Unit
Agrees none (some s) = ⊥
Agrees (some info) o = Tracked info o

Agrees-by :
    (o : Option DiskEntry) (b : Option FileState)
    → ((info : DiskEntry) → o ≡ some info → Tracked info b)
    → ((s : FileState) → b ≡ some s → (i : DiskEntry) × (o ≡ some i))
    → Agrees o b
Agrees-by none none on_disk in_base = tt
Agrees-by none (some s) on_disk in_base = let (i, e) = in_base s refl in absurd (none-ne-some e)
Agrees-by (some info) b on_disk in_base = on_disk info refl

-- If a check of a scanned directory tree reports nothing, then what the scan has taken up and the
-- database have the same files, of the same sizes and, where both digests are known, of the same
-- digests.
pub fsck_clean :
    (location : Option Bytes) (gpg_id age_recipients : Bool) (digest : Bytes → Digest)
    (root : Entries) (base : Snapshot) (p : FilePath)
    → fsck location gpg_id age_recipients (scan_disk digest [] root []) base ≡ []
    → Agrees (lookup p (scan_disk digest [] root [])) (lookup p base)
unfolding fsck check_location
fsck_clean location gpg_id age_recipients digest root base p clean =
    let files = scan_disk digest [] root [] in
    let (_, rest) = parts-nil (check_location location) _ clean in
    let (disk_clean, rest') = parts-nil (check_disk files base) _ rest in
    let (base_clean, _) =
      parts-nil (check_base base files) (check_recipients gpg_id age_recipients files) rest' in
    Agrees-by (lookup p files) (lookup p base)
      (λ info found. check_disk-Tracked files base p info disk_clean found)
      (λ s found. check_base-present base files p s base_clean found)
