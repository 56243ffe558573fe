-- ===== src/Sync/Scan/Laws.antt =====
-- pkg/sync/scan.go: what a scan records of each file.
use binpass.Prelude.{
  List, [], ◌∷◌, Option, none, some, Bytes, ◌==◌, bytes_eq, if◌then◌else◌, ◌≡◌, ◌≢◌, ◌⊎◌, inl, inr,
  refl, sym, ◌∙◌, arith, Option-cases, Bool-cases,
}
use binpass.Prelude.Dict.{lookup, insert, lookup-insert, lookup-nil}
use binpass.Sync.Version.{DeviceId, increment}
use binpass.Sync.State.{FilePath, Digest, FileState, Snapshot}
use binpass.Sync.Scan.{
  DiskFile, Entries, walk, same_metadata, first_version, scan_file, scan_files, scan,
}

-- The bytes on disk are those that the base recorded.
abbrev pub SameContent : (Bytes → Digest) → DiskFile → FileState → Type 0
SameContent digest f b = (content : Bytes) × (f.content ≡ some content) × (digest content ≡ b.hash)

module _ (digest : Bytes → Digest) (base : Snapshot) (device : DeviceId) (f : DiskFile) where
  -- A file whose size and time are the base's keeps the base's state whole.
  pub scan_file_untouched :
      (b : FileState)
      → lookup f.rel base ≡ some b
      → f.size ≡ b.size
      → f.mod_time ≡ b.mod_time
      → scan_file digest base device f ≡ some b
  unfolding scan_file
  scan_file_untouched b e hs ht = ground arith

  kept_or_changed :
      (b : FileState) (content : Bytes) (s : FileState)
      → f.content ≡ some content
      → lookup f.rel base ≡ some b
      → scan_file digest base device f ≡ some s
      → (s.version ≡ b.version)
        ⊎ ((digest content ≢ b.hash) × (s.version ≡ increment b.version device 1))
  unfolding scan_file
  kept_or_changed b content s c old e = elim (Bool-cases (same_metadata f (some b))) [
    | inl untouched ↦ inl (ground arith)
    | inr touched ↦ elim (bytes_eq.dec b.hash (digest content)) [
      | yes p ↦ inl (ground arith)
      | no n ↦ inr (λ q. n (sym q), ground arith)
    ]
  ]

  -- The version that a scan gives to a file: of a base file it is the base's version, or, only
  -- where the digest of the bytes is another than the base's, that version with this device's
  -- counter increased by one; a new file gets the first version of this device.
  pub scan_file_version :
      (content : Bytes) (s : FileState)
      → f.content ≡ some content
      → scan_file digest base device f ≡ some s
      → ((lookup f.rel base ≡ none) × (s.version ≡ first_version device))
        ⊎ ((b : FileState) × (lookup f.rel base ≡ some b)
            × ((s.version ≡ b.version)
                ⊎ ((digest content ≢ b.hash) × (s.version ≡ increment b.version device 1))))
  unfolding scan_file
  scan_file_version content s c e = elim (Option-cases (lookup f.rel base)) [
    | inl new ↦ inl (new, ground arith)
    | inr (b, old) ↦ inr (b, old, kept_or_changed b content s c old e)
  ]

abbrev pub find_file : FilePath → List DiskFile → Option DiskFile
find_file p [] = none
find_file p (f ∷ fs) = if p == f.rel then some f else find_file p fs

-- No path is visited twice.
abbrev pub UniquePaths : List DiskFile → Type 0
UniquePaths [] = Unit
UniquePaths (f ∷ fs) = (find_file f.rel fs ≡ none) × UniquePaths fs

module _ (digest : Bytes → Digest) (base : Snapshot) (device : DeviceId) where
  abbrev pub scanned : Option DiskFile → Option FileState → Option FileState
  scanned none earlier = earlier
  scanned (some f) earlier = scan_file digest base device f

  lookup-scan_files :
      (fs : List DiskFile) (out snap : Snapshot) (p : FilePath)
      → UniquePaths fs
      → scan_files digest base device fs out ≡ some snap
      → lookup p snap ≡ scanned (find_file p fs) (lookup p out)
  unfolding scan_files
  lookup-scan_files [] out snap p u e = ground arith
  lookup-scan_files (f ∷ fs) out snap p (fresh, u) e =
      elim (Option-cases (scan_file digest base device f)) [
        | inl fails ↦ ground arith
        | inr (s, found) ↦
            ground (
              arith,
              lookup-insert p f.rel s out,
              lookup-scan_files fs (insert f.rel s out) snap p u,
            )
      ]

  -- Where the walk visits no path twice, a scan that reads every file records exactly the files
  -- that the walk takes up, each in the state that its own callback gives; a path that the walk
  -- passes over is absent.
  pub lookup-scan :
      (tree : Entries) (exts : List Bytes) (snap : Snapshot) (p : FilePath)
      → UniquePaths (walk exts [] tree)
      → scan digest tree base device exts ≡ some snap
      → lookup p snap ≡ scanned (find_file p (walk exts [] tree)) none
  unfolding scan
  lookup-scan tree exts snap p u e =
      lookup-scan_files (walk exts [] tree) [] snap p u e ∙ rw (lookup-nil p) refl
