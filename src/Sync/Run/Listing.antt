-- ===== src/Sync/Run/Listing.antt =====
-- internal/cli/sync.go: the versions that a listing of the remote is given, and what the merge
-- decides from them.
use binpass.Prelude.{
  ◌+◌, ◌<◌, true, false, Option, some, bytes_eq, if◌then◌else◌, ◌≡◌, ◌⊎◌, inl, inr, refl, arith,
  Bool-cases,
}
use binpass.Prelude.Dict.{lookup, NodupKeys}
use binpass.Otp.{Codecs}
use binpass.Sync.Version.{DeviceId, VersionVector, equal, dominates, increment, counter, uint64}
use binpass.Sync.Version.Order.{equal_iff, equal_sound, dominates-Ahead}
use binpass.Sync.Version.Join.{dominates-increment, increment-NodupKeys}
use binpass.Sync.State.{FileState, Snapshot, Opener}
use binpass.Sync.Merge.{act_none, act_push, merge_file, merge_existing}
use binpass.Sync.Run.{RemoteFile, remote_state}

pub equal_refl : (v : VersionVector) → NodupKeys v → equal v v ≡ true
equal_refl v u = (equal_iff v v u u).1 (λ id. refl)

dominates-¬equal : (a b : VersionVector) → NodupKeys a → dominates a b ≡ true → equal a b ≡ false
dominates-¬equal a b u d = elim (Bool-cases (equal a b)) [
  | inl e ↦
      let (id, lt) = dominates-Ahead a b u d in absurd (omega (arith, lt, equal_sound a b e id))
  | inr e ↦ e
]

remote_state-version :
    (base : Snapshot) (device : DeviceId) (f : RemoteFile) (b : FileState)
    → lookup f.path base ≡ some b
    → (remote_state base device f).version ≡ b.version
unfolding remote_state
remote_state-version base device f b e = rw e

module _ (lib : Codecs) (base : Snapshot) (device : DeviceId) (f : RemoteFile)
    (b l : FileState) where
  -- A remote file that the base knows is given the base's version, whatever its content and
  -- revision are. So, where that version is a map whose counter for this device does not wrap
  -- around, the merge does nothing while the local version is the base's, and pushes the local file
  -- once its version has been increased here: it never pulls, and never sees a conflict.
  pub known_remote_never_pulled :
      (opener : Option Opener)
      → lookup f.path base ≡ some b
      → NodupKeys b.version
      → counter b.version device + 1 < uint64
      → (l.version ≡ b.version) ⊎ (l.version ≡ increment b.version device 1)
      → (merge_file lib f.path (some l) (some (remote_state base device f)) (some b) opener).kind
        ≡ (if equal l.version b.version then act_none else act_push)
  unfolding merge_file merge_existing
  known_remote_never_pulled opener known u fits edited =
      let same = remote_state-version base device f b known in
      let more = dominates-increment b.version device 1 u (omega arith) fits in
      let differ =
        dominates-¬equal (increment b.version device 1) b.version
          (increment-NodupKeys b.version device 1 u) more in
      elim edited [
        | inl e ↦ ground (arith, same, equal_refl b.version u)
        | inr e ↦ ground (arith, same, more, differ)
      ]
