-- ===== src/Sync/Run/Laws.antt =====
-- internal/cli/sync.go: what carrying out an action does to the disk, the remote and the database.
use binpass.Prelude.{
  true, false, List, ◌∷◌, Option, none, some, Bytes, ◌==◌, bytes_eq, if◌then◌else◌, ◌≡◌, ◌≢◌, ◌⊎◌,
  inl, inr, refl, ap, ◌∙◌, arith, Bool-cases, Option-cases,
}
use binpass.Paths.{check_path}
use binpass.Sync.Version.{DeviceId}
use binpass.Sync.State.{FilePath, FileState}
use binpass.Sync.Merge.{act_conflict, act_delete, Action}
use binpass.Sync.ConflictName.{conflict_name}
use binpass.Sync.ConflictName.Laws.{conflict_name-ne}
use binpass.Sync.Run.{
  continue_with, Disk, Remote, Database, World, RunError, unsafe_path, write_conflict, apply_action,
  apply_actions, apply_conflict, save_conflict, fetch_conflict, record_conflict, copy_local,
  download, update, set_disk, set_db,
}

-- A write leaves the other files alone.
pub record IsDisk (D : Disk) : Type 0 where
  pub read-write :
      (s t : D.State) (p q : FilePath) (content : Bytes)
      → D.write s p content ≡ some t
      → D.read t q ≡ (if q == p then some content else D.read s q)

continue_with_keeps :
    {W : Type 0} (P : W → Type 0) (r : W × Option RunError) (second : W → W × Option RunError)
    → P r.0
    → ((v : W) → P v → P (second v).0)
    → P (continue_with r second).0
continue_with_keeps P (w, none) second h k = k w h
continue_with_keeps P (w, some e) second h k = h

module _ (D : Disk) (R : Remote) (B : Database) (device : DeviceId) (timestamp : Bytes) where
  -- An unsafe path stops the run before anything is changed.
  pub apply_actions_unsafe :
      (a : Action) (actions : List Action) (w : World D R B)
      → check_path a.path ≡ false
      → apply_actions D R B device timestamp (a ∷ actions) w ≡ (w, some unsafe_path)
  unfolding apply_actions apply_action
  apply_actions_unsafe a actions w h = ground arith

  -- A deletion changes the remote and the database only: the local file stays on the disk.
  pub apply_delete_disk :
      (a : Action) (w : World D R B)
      → a.kind ≡ act_delete
      → (apply_action D R B device timestamp a w).0.disk ≡ w.disk
  unfolding apply_action
  apply_delete_disk a w k = ground arith

module _ (D : Disk) (R : Remote) (B : Database) (lawful : IsDisk D) (device : DeviceId)
    (timestamp : Bytes) where
  runs_conflict :
      (a : Action) (w : World D R B)
      → a.kind ≡ act_conflict
      → check_path a.path ≡ true
      → apply_action D R B device timestamp a w ≡ apply_conflict D R B device timestamp a w
  unfolding apply_action
  runs_conflict a w k safe = ground arith

  save_conflict-read :
      (a : Action) (l : FileState) (content : Bytes) (w : World D R B)
      → D.read w.disk a.path ≡ some content
      → ((save_conflict D R B a (conflict_name a.path device timestamp) (some l) w
          ≡ (w, some write_conflict)))
        ⊎ ((d : D.State) × (save_conflict D R B a (conflict_name a.path device timestamp) (some l) w
              ≡ (record w { disk = d }, none))
            × (D.read d (conflict_name a.path device timestamp) ≡ some content))
  unfolding save_conflict copy_local set_disk
  save_conflict-read a l content w er =
      let name = conflict_name a.path device timestamp in
      elim (Option-cases (D.write w.disk name content)) [
        | inl fails ↦ inl (ground arith)
        | inr (d, e) ↦
            inr (d, ground arith, ground (arith, lawful.read-write w.disk d name name content e))
      ]

  fetch_conflict-read :
      (a : Action) (r : Option FileState) (q : FilePath) (w : World D R B)
      → q ≢ a.path
      → D.read (fetch_conflict D R B a r w).0.disk q ≡ D.read w.disk q
  unfolding fetch_conflict download set_disk
  fetch_conflict-read a none q w ne = refl
  fetch_conflict-read a (some _) q w ne = elim (Option-cases (R.get w.remote a.path)) [
    | inl gone ↦ ground arith
    | inr (c, e) ↦ elim (Option-cases (D.write w.disk a.path c)) [
      | inl fails ↦ ground arith
      | inr (d, f) ↦ ground (arith, lawful.read-write w.disk d a.path q c f)
    ]
  ]

  record_conflict-disk :
      (l r : Option FileState) (w : World D R B) → (record_conflict D R B l r w).0.disk ≡ w.disk
  unfolding record_conflict update set_db
  record_conflict-disk none r w = refl
  record_conflict-disk (some l) none w = refl
  record_conflict-disk (some l) (some r) w = ground arith

  conflict_keeps :
      (a : Action) (l : FileState) (content : Bytes) (w : World D R B)
      → a.local ≡ some l
      → D.read w.disk a.path ≡ some content
      → conflict_name a.path device timestamp ≢ a.path
      → (D.read (apply_conflict D R B device timestamp a w).0.disk a.path ≡ some content)
        ⊎ (D.read
              (apply_conflict D R B device timestamp a w).0.disk
              (conflict_name a.path device timestamp)
            ≡ some content)
  unfolding apply_conflict save_conflict conflict_name fetch_conflict
  conflict_keeps a l content w el er ne =
      let name = conflict_name a.path device timestamp in
      let holds = λ (v : World D R B). D.read v.disk name ≡ some content in
      elim (save_conflict-read a l content w er) [
        | inl failed ↦ inl (rw (el, failed) er)
        | inr (d, saved, kept) ↦ inr (
            rw (el, saved)
              (continue_with_keeps holds (fetch_conflict D R B a a.remote (record w { disk = d })) _
                (fetch_conflict-read a a.remote name (record w { disk = d }) ne ∙ kept)
                (λ v h. ap (λ d'. D.read d' name) (record_conflict-disk (some l) a.remote v) ∙ h)))
      ]

  -- Over a disk whose writes leave the other files alone, and whatever fails on the way, a conflict
  -- leaves the local content on the disk: under the path, or
  -- under the name of the conflict file.
  pub apply_conflict_keeps_local :
      (a : Action) (l : FileState) (content : Bytes) (w : World D R B)
      → a.kind ≡ act_conflict
      → a.local ≡ some l
      → D.read w.disk a.path ≡ some content
      → (D.read (apply_action D R B device timestamp a w).0.disk a.path ≡ some content)
        ⊎ (D.read
              (apply_action D R B device timestamp a w).0.disk
              (conflict_name a.path device timestamp)
            ≡ some content)
  unfolding apply_action
  apply_conflict_keeps_local a l content w k el er = elim (Bool-cases (check_path a.path)) [
    | inl safe ↦
        rw (runs_conflict a w k safe)
          (conflict_keeps a l content w el er (conflict_name-ne a.path device timestamp))
    | inr unsafe ↦ inl (ground arith)
  ]
