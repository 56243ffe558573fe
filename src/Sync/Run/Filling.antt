-- ===== src/Sync/Run/Filling.antt =====
-- internal/cli/sync.go: the digests that a transport does not list, and what the merge makes of them.
use binpass.Prelude.{
  Bool, true, not, List, [], ◌∷◌, Option, none, some, Bytes, ◌==◌, bytes_eq, if◌then◌else◌, ◌≡◌,
  ◌≢◌, arith,
}
use binpass.Prelude.Dict.{lookup}
use binpass.Otp.{Codecs}
use binpass.Sync.Version.{DeviceId}
use binpass.Sync.State.{FilePath, Digest, FileState, Snapshot, Opener, no_digest}
use binpass.Sync.Merge.{act_none, merge_file}
use binpass.Sync.Run.{Remote, RemoteFile, remote_state}

module _ (digest : Bytes → Digest) (R : Remote) (on_disk : FilePath → Bool) where
  filled : RemoteFile → Option Bytes → RemoteFile
  filled f none = f
  filled f (some content) = record f { hash = digest content }

  fill_unknown : R.State → RemoteFile → Option FileState → RemoteFile
  fill_unknown remote f (some _) = f
  fill_unknown remote f none = if not (on_disk f.path) then f else filled f (R.get remote f.path)

  -- The body of the loop of `fillUnknownRemoteHashes`. `on_disk` says that the store has a file, and
  -- no directory, of that name.
  unfoldable pub fill_hash : R.State → Snapshot → RemoteFile → RemoteFile
  unfolding fill_unknown filled
  fill_hash remote base f =
      if not (f.hash == no_digest) then f else fill_unknown remote f (lookup f.path base)

  -- `fillUnknownRemoteHashes`
  unfoldable pub fill_unknown_remote_hashes : R.State → Snapshot → List RemoteFile → List RemoteFile
  unfolding fill_hash
  fill_unknown_remote_hashes remote base [] = []
  fill_unknown_remote_hashes remote base (f ∷ files) =
      fill_hash remote base f ∷ fill_unknown_remote_hashes remote base files

  -- A file that a transport lists without a digest, that is in the store too and that the base does
  -- not know, is left alone by the merge if the remote can be read and its content has the known
  -- digest of the local file: a store that was copied to a second device has no conflicts.
  pub fill_hash-merge_file :
      (lib : Codecs) (opener : Option Opener) (remote : R.State) (base : Snapshot)
      (device : DeviceId) (f : RemoteFile) (l : FileState) (content : Bytes)
      → f.hash ≡ no_digest
      → lookup f.path base ≡ none
      → on_disk f.path ≡ true
      → R.get remote f.path ≡ some content
      → l.hash ≡ digest content
      → digest content ≢ no_digest
      → (merge_file lib f.path
          (some l)
          (some (remote_state base device (fill_hash remote base f)))
          none
          opener).kind
        ≡ act_none
  unfolding fill_hash fill_unknown filled merge_file remote_state
  fill_hash-merge_file lib opener remote base device f l content unknown new there reads same
        known =
      ground arith
