-- ===== src/Sync/Run.antt =====
-- internal/cli/sync.go: one synchronisation, over a disk, a transport and a state database that are
-- known by their operations only.
pub mod Filling
pub mod Laws
pub mod Listing
use binpass.Prelude.{
  ℕ, ◌-◌, Bool, true, false, not, ◌&&◌, ◌||◌, List, [], ◌∷◌, ◌++◌, Option, none, some, Bytes, codes,
  nat_eqb, ltb, ◌==◌, bytes_eq, if◌then◌else◌, length, drop, Result, ok, err,
}
use binpass.Prelude.Dict.{Dict, lookup, insert}
use binpass.Text.{take}
use binpass.Otp.{Codecs}
use binpass.Paths.{check_path}
use binpass.Sync.Version.{DeviceId, VersionVector, equal, clone, merge as join}
use binpass.Sync.State.{FilePath, Time, Digest, FileState, Snapshot, Opener, no_digest}
use binpass.Sync.Merge.{
  ActionKind, act_none, act_push, act_pull, act_conflict, act_delete, act_merge_hotp, Action,
}
use binpass.Sync.ConflictName.{conflict_name}
use binpass.Sync.Scan.{first_version}

-- `remote.File`
pub record RemoteFile : Type 0 where
  pub path : FilePath
  pub size : ℕ
  pub mod_time : Time
  pub rev : Bytes
  pub hash : Digest

-- The operations of `remote.Remote` that a run uses. `Get` includes reading its content to the
-- end, and an error is none.
pub record Remote : Type 1 where
  pub State : Type 0
  pub get : State → FilePath → Option Bytes
  pub put : State → FilePath → Bytes → Bytes → Option State
  pub delete : State → FilePath → Bytes → Option State

-- The store's directory: `os.ReadFile` and `storage.FS.Write`.
pub record Disk : Type 1 where
  pub State : Type 0
  pub read : State → FilePath → Option Bytes
  pub write : State → FilePath → Bytes → Option State

-- The operations of `sync.StateDB` that a run uses after it has loaded the base.
pub record Database : Type 1 where
  pub State : Type 0
  pub update_file : State → FileState → Option State
  pub delete_file : State → FilePath → Option State
  pub record_sync : State → Option State

pub data RunError : Type 0 where
  unsafe_path read_local push_remote update_state get_remote write_local write_conflict : RunError
  delete_remote delete_state record_failed : RunError

-- The file names that `remoteFilesToSnapshot` gives a version to: the base's for a known file, a
-- first one for another.
version_of : Option FileState → DeviceId → VersionVector
version_of none device = first_version device
version_of (some b) device = clone b.version

unfoldable pub remote_state : Snapshot → DeviceId → RemoteFile → FileState
unfolding version_of
remote_state base device f = record {
  path = f.path;
  hash = f.hash;
  size = f.size;
  mod_time = f.mod_time;
  version = version_of (lookup f.path base) device;
  remote_rev = f.rev;
  device = device;
}

listed_onto : Snapshot → DeviceId → List RemoteFile → Snapshot → Snapshot
listed_onto base device [] snap = snap
listed_onto base device (f ∷ fs) snap =
    listed_onto base device fs (insert f.path (remote_state base device f) snap)

-- `remoteFilesToSnapshot`
unfoldable pub remote_files_to_snapshot : List RemoteFile → Snapshot → DeviceId → Snapshot
unfolding listed_onto
remote_files_to_snapshot files base device = listed_onto base device files []

-- `stripCryptoExt`
unfoldable pub strip_crypto_ext : FilePath → Bytes
unfolding take
strip_crypto_ext path =
    let ext = drop (length path - 4) path in
    if ltb 4 (length path) && (ext == codes ".gpg" || ext == codes ".age")
    then take (length path - 4) path
    else path

-- `remoteRevForAction`
unfoldable pub remote_rev_for_action : Option FileState → Bytes
remote_rev_for_action none = []
remote_rev_for_action (some r) = r.remote_rev

-- A step over a world: what it leaves behind, and its error. The second step runs only if the
-- first returned none.
abbrev pub continue_with :
    {W : Type 0} → W × Option RunError → (W → W × Option RunError) → W × Option RunError
continue_with (w, none) second = second w
continue_with (w, some e) second = (w, some e)

infixl 5 ◌then_run◌
abbrev pub ◌then_run◌ :
    {W : Type 0} → (W → W × Option RunError) → (W → W × Option RunError) → W → W × Option RunError
◌then_run◌ first second w = continue_with (first w) second

module _ (D : Disk) (R : Remote) (B : Database) where
  pub record World : Type 0 where
    pub disk : D.State
    pub remote : R.State
    pub db : B.State

  -- What a step leaves behind, and its error. An error undoes nothing.
  abbrev pub Outcome : Type 0
  Outcome = World × Option RunError

  abbrev pub Step : Type 0
  Step = World → Outcome

  abbrev stay : Step
  stay w = (w, none)

  abbrev fail : RunError → Step
  fail e w = (w, some e)

  set_disk : World → Option D.State → RunError → Outcome
  set_disk w none e = (w, some e)
  set_disk w (some d) e = (record w { disk = d }, none)

  set_remote : World → Option R.State → RunError → Outcome
  set_remote w none e = (w, some e)
  set_remote w (some r) e = (record w { remote = r }, none)

  set_db : World → Option B.State → RunError → Outcome
  set_db w none e = (w, some e)
  set_db w (some b) e = (record w { db = b }, none)

  -- `os.ReadFile` and `fs.Write` under another name.
  copy_local : FilePath → FilePath → RunError → RunError → Step
  copy_local from to unread unwritten w = elim (D.read w.disk from) [
    | none ↦ (w, some unread)
    | some content ↦ set_disk w (D.write w.disk to content) unwritten
  ]

  upload : FilePath → Bytes → Step
  upload path rev w = elim (D.read w.disk path) [
    | none ↦ (w, some read_local)
    | some content ↦ set_remote w (R.put w.remote path content rev) push_remote
  ]

  download : FilePath → Step
  download path w = elim (R.get w.remote path) [
    | none ↦ (w, some get_remote)
    | some content ↦ set_disk w (D.write w.disk path content) write_local
  ]

  update : FileState → Step
  update s w = set_db w (B.update_file w.db s) update_state

  apply_push : Action → Option FileState → Step
  apply_push a none = stay
  apply_push a (some l) = upload a.path (remote_rev_for_action a.remote) then_run update l

  apply_pull : Action → Option FileState → Step
  apply_pull a none = stay
  apply_pull a (some r) = download a.path then_run update r

  save_conflict : Action → Bytes → Option FileState → Step
  save_conflict a name none = stay
  save_conflict a name (some _) = copy_local a.path name read_local write_conflict

  fetch_conflict : Action → Option FileState → Step
  fetch_conflict a none = stay
  fetch_conflict a (some _) = download a.path

  record_conflict : Option FileState → Option FileState → Step
  record_conflict (some l) (some r) = update (record r { version = join l.version r.version })
  record_conflict _ _ = stay

  apply_conflict : DeviceId → Bytes → Action → Step
  apply_conflict device timestamp a =
      save_conflict a (conflict_name a.path device timestamp) a.local
      then_run fetch_conflict a a.remote
      then_run record_conflict a.local a.remote

  apply_delete : Action → Step
  apply_delete a =
      (λ w. set_remote w (R.delete w.remote a.path (remote_rev_for_action a.remote)) delete_remote)
      then_run (λ w. set_db w (B.delete_file w.db a.path) delete_state)

  -- `Merge` makes this action for two files that are there; without them the code would panic.
  apply_merge_hotp : Option FileState → Option VersionVector → Step
  apply_merge_hotp (some l) (some v) = update (record l { version = v })
  apply_merge_hotp (some l) none = update (record l { version = [] })
  apply_merge_hotp none v = stay

  -- `act.Base == nil` and a local file: the file is learned.
  learn : Option FileState → Option FileState → Step
  learn none (some l) = update l
  learn _ _ = stay

  apply_none : Option VersionVector → Option FileState → Option FileState → Step
  apply_none (some v) (some l) base =
      if not (equal v l.version) then update (record l { version = v }) else learn base (some l)
  apply_none _ local base = learn base local

  by_kind : DeviceId → Bytes → Action → ActionKind → Step
  by_kind device timestamp a act_push = apply_push a a.local
  by_kind device timestamp a act_pull = apply_pull a a.remote
  by_kind device timestamp a act_conflict = apply_conflict device timestamp a
  by_kind device timestamp a act_delete = apply_delete a
  by_kind device timestamp a act_merge_hotp = apply_merge_hotp a.local a.merged_version
  by_kind device timestamp a act_none = apply_none a.merged_version a.local a.base

  -- The body of the loop of `applyActions`.
  unfoldable pub apply_action : DeviceId → Bytes → Action → Step
  unfolding by_kind apply_push apply_pull apply_conflict apply_delete apply_merge_hotp apply_none
      learn save_conflict fetch_conflict record_conflict upload download copy_local update set_disk
      set_remote set_db
  apply_action device timestamp a =
      if not (check_path a.path) then fail unsafe_path else by_kind device timestamp a a.kind

  -- `applyActions`
  unfoldable pub apply_actions : DeviceId → Bytes → List Action → Step
  unfolding set_db
  apply_actions device timestamp [] = λ w. set_db w (B.record_sync w.db) record_failed
  apply_actions device timestamp (a ∷ actions) =
      apply_action device timestamp a then_run apply_actions device timestamp actions
