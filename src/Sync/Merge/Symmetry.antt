-- ===== src/Sync/Merge/Symmetry.antt =====
-- pkg/sync/merge.go: the two sides of a merge are treated alike.
use binpass.Prelude.{
  true, false, Option, none, some, bytes_eq, ◌≡◌, inl, inr, refl, arith, Bool-cases,
}
use binpass.Prelude.Dict.{NodupKeys}
use binpass.Otp.{Codecs}
use binpass.Sync.Version.{VersionVector, dominates}
use binpass.Sync.Version.Order.{dominates-Below, dominates-Ahead}
use binpass.Sync.Version.Divergence.{equal_comm}
use binpass.Sync.State.{FilePath, FileState}
use binpass.Sync.Merge.{
  ActionKind, act_push, act_pull, Sides, with_opener, merge_existing, diverged, classify,
  merge_file,
}
use binpass.Sync.Merge.Recorded.{IsMap}

-- The action seen from the other side.
abbrev pub mirrored : ActionKind → ActionKind
mirrored act_push = act_pull
mirrored act_pull = act_push
mirrored k = k

dominates-asym : (a b : VersionVector) → NodupKeys a → dominates a b ≡ true → dominates b a ≡ false
dominates-asym a b u d = elim (Bool-cases (dominates b a)) [
  | inl d' ↦
      let (id, lt) = dominates-Ahead a b u d in
      absurd (omega (arith, lt, dominates-Below b a d' id))
  | inr e ↦ e
]

existing_mirror :
    (lib : Codecs) (s t : Sides) (l r : FileState)
    → NodupKeys l.version
    → NodupKeys r.version
    → (merge_existing lib t r l none).kind ≡ mirrored (merge_existing lib s l r none).kind
unfolding merge_existing diverged with_opener
existing_mirror lib s t l r ul ur = ground (
  arith,
  equal_comm l.version r.version,
  dominates-asym l.version r.version ul,
  dominates-asym r.version l.version ur,
)

module _ (lib : Codecs) where
  classify_mirror :
      (s t : Sides) (l r b : Option FileState)
      → IsMap l
      → IsMap r
      → (classify lib t r l b none).kind ≡ mirrored (classify lib s l r b none).kind
  unfolding classify
  classify_mirror s t (some l) (some r) (some b) ul ur = existing_mirror lib s t l r ul ur
  classify_mirror s t (some l) none none ul ur = refl
  classify_mirror s t none (some r) none ul ur = refl
  classify_mirror s t none (some r) (some b) ul ur = ground arith
  classify_mirror s t (some l) none (some b) ul ur = ground arith
  classify_mirror s t none none (some b) ul ur = refl
  classify_mirror s t (some l) (some r) none ul ur = ground arith
  classify_mirror s t none none none ul ur = refl

  -- Without an opener and with version vectors that are maps, two devices that merge the same three
  -- states from their two sides decide alike: one pushes where the other pulls, and all other
  -- actions are the same.
  pub merge_file_mirror :
      (p : FilePath) (l r b : Option FileState)
      → IsMap l
      → IsMap r
      → (merge_file lib p r l b none).kind ≡ mirrored (merge_file lib p l r b none).kind
  unfolding merge_file
  merge_file_mirror p l r b ul ur = classify_mirror _ _ l r b ul ur
