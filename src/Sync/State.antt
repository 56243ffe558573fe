-- ===== src/Sync/State.antt =====
-- pkg/sync/state.go: what is known of a file and of a store at one moment.
use binpass.Prelude.{ℕ, zero, suc, [], ◌∷◌, Option, Bytes, bytes_eq}
use binpass.Prelude.Dict.{Dict}
use binpass.Secret.{Secret}
use binpass.Sync.Version.{DeviceId, VersionVector}

abbrev pub FilePath : Type 0
FilePath = Bytes

-- A moment, in nanoseconds.
abbrev pub Time : Type 0
Time = ℕ

-- The 32 bytes of a blake3 digest.
abbrev pub Digest : Type 0
Digest = Bytes

abbrev zeros : ℕ → Bytes
zeros zero = []
zeros (suc n) = 0 ∷ zeros n

-- `[32]byte{}`, which stands for an unknown digest.
unfoldable pub no_digest : Digest
no_digest = zeros 32

pub record FileState : Type 0 where
  pub path : FilePath
  pub hash : Digest
  pub size : ℕ
  pub mod_time : Time
  pub version : VersionVector
  pub remote_rev : Bytes
  pub device : DeviceId

abbrev pub Snapshot : Type 0
Snapshot = Dict FilePath FileState

-- `Open` of an `Opener`: the plaintext of a file, or an error.
abbrev pub Opener : Type 0
Opener = FilePath → Option Secret
