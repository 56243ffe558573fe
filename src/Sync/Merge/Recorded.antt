-- ===== src/Sync/Merge/Recorded.antt =====
-- pkg/sync/merge.go: the version that is recorded after an action.
use binpass.Prelude.{
  true, not, ◌&&◌, Option, none, some, ◌==◌, bytes_eq, ◌≡◌, inl, inr, arith, Bool-cases,
}
use binpass.Prelude.Dict.{NodupKeys}
use binpass.Otp.{Codecs}
use binpass.Sync.Version.{VersionVector, equal, merge as join}
use binpass.Sync.Version.Order.{Below, equal_sound, dominates-Below}
use binpass.Sync.Version.Join.{merge-above}
use binpass.Sync.State.{FilePath, FileState, Opener, no_digest}
use binpass.Sync.Merge.{Action, Sides, classify, merge_file}
use binpass.Sync.Merge.Decision.{
  Branch, same, local_ahead, remote_ahead, same_content, hotp_only, conflict, merge_existing-Branch,
}
use binpass.Sync.Merge.Safety.{Contained}

-- The version vectors of a side are maps.
abbrev pub IsMap : Option FileState → Type 0
IsMap none = Unit
IsMap (some x) = NodupKeys x.version

-- The recorded version, where there is one, contains both sides.
abbrev pub Covers : Option VersionVector → Option FileState → Option FileState → Type 0
Covers none l r = Unit
Covers (some v) l r = Contained l v × Contained r v

Below-refl : (v : VersionVector) → Below v v
Below-refl v id = omega arith

Same-Below : (a b : VersionVector) → equal a b ≡ true → Below b a
Same-Below a b e id = omega (arith, equal_sound a b e id)

join-Covers :
    (l r : FileState)
    → NodupKeys r.version
    → Covers (some (join l.version r.version)) (some l) (some r)
join-Covers l r u = merge-above l.version r.version u

Branch-Covers :
    {lib : Codecs} {s : Sides} {l r : FileState} {opener : Option Opener} {a : Action}
    → NodupKeys r.version
    → Branch lib s l r opener a
    → Covers a.merged_version (some l) (some r)
Branch-Covers {l} {r} u (same e) = (Below-refl l.version, Same-Below l.version r.version e)
Branch-Covers {l} {r} u (local_ahead d) =
    (Below-refl l.version, dominates-Below l.version r.version d)
Branch-Covers {l} {r} u (remote_ahead d _) =
    (dominates-Below r.version l.version d, Below-refl r.version)
Branch-Covers {l} {r} u (same_content _ e) = join-Covers l r u
Branch-Covers {l} {r} u (hotp_only _ _ n _) = join-Covers l r u
Branch-Covers {l} {r} u (conflict _ _) = join-Covers l r u

module _ (lib : Codecs) where
  classify-Covers :
      (s : Sides) (l r b : Option FileState) (opener : Option Opener)
      → IsMap r
      → Covers (classify lib s l r b opener).merged_version l r
  unfolding classify
  classify-Covers s (some l) (some r) (some b) opener u =
      Branch-Covers u (merge_existing-Branch lib s l r opener)
  classify-Covers s (some l) none none opener u = (Below-refl l.version, tt)
  classify-Covers s none (some r) none opener u = (tt, Below-refl r.version)
  classify-Covers s none (some r) (some b) opener u =
      elim (Bool-cases (equal r.version b.version)) [
        | inl e ↦ rw e tt
        | inr e ↦ rw e (tt, Below-refl r.version)
      ]
  classify-Covers s (some l) none (some b) opener u =
      elim (Bool-cases (equal l.version b.version)) [
        | inl e ↦ rw e tt
        | inr e ↦ rw e (Below-refl l.version, tt)
      ]
  classify-Covers s none none (some b) opener u = tt
  classify-Covers s (some l) (some r) none opener u =
      elim (Bool-cases (l.hash == r.hash && not (l.hash == no_digest))) [
        | inl e ↦ rw e (join-Covers l r u)
        | inr e ↦ rw e (join-Covers l r u)
      ]
  classify-Covers s none none none opener u = tt

  -- Where the remote version vector is a map, the version that is recorded with an action, if there
  -- is one, contains the history of each side that is there.
  pub merge_file-Covers :
      (p : FilePath) (l r b : Option FileState) (opener : Option Opener)
      → IsMap r
      → Covers (merge_file lib p l r b opener).merged_version l r
  unfolding merge_file
  merge_file-Covers p l r b opener u = classify-Covers _ l r b opener u
