-- ===== src/Sync/StateDb.antt =====
-- pkg/sync/statedb.go: the base snapshot and the write-ahead log, over buckets of a key-value store
-- that are known by their operations only. A transaction that ends in an error changes nothing.
pub mod Laws
pub mod Replay
use binpass.Prelude.{
  ℕ, Bool, true, false, List, [], ◌∷◌, Option, none, some, Bytes, codes, ◌==◌, bytes_eq,
  if◌then◌else◌,
}
use binpass.Prelude.Dict.{Dict, keys, lookup, insert}
use binpass.Sync.State.{FilePath, FileState, Snapshot}

-- A bucket. `entries` is what a cursor visits, in the order of the keys; `delete` gives none for an
-- error; `visited` is what a cursor visits while the keys of a test are deleted under it, as it
-- comes to them; `accepts` says that a key and a value are within the limits of the store.
pub record Bucket : Type 1 where
  pub State : Type 0
  pub get : State → Bytes → Option Bytes
  pub put : State → Bytes → Bytes → Option State
  pub delete : State → Bytes → Option State
  pub entries : State → Dict Bytes Bytes
  pub accepts : Bytes → Bytes → Bool
  pub visited : (Bytes → Bool) → State → List Bytes

-- `walEntry`
pub record WalEntry : Type 0 where
  pub op : Bytes
  pub path : FilePath
  pub state : Option FileState

-- What the database uses of encoding/json. A nil state has an encoding too.
pub record Json : Type 0 where
  pub marshal : Option FileState → Option Bytes
  pub unmarshal : Bytes → Option FileState
  pub marshal_entry : WalEntry → Option Bytes
  pub unmarshal_entry : Bytes → Option WalEntry

abbrev pub or_same : {A : Type 0} → A → Option A → A
or_same s none = s
or_same s (some t) = t

abbrev pub and_then : {A B : Type 0} → Option A → (A → Option B) → Option B
and_then none f = none
and_then (some a) f = f a

module _ (B : Bucket) (J : Json) where
  load_onto : Dict Bytes Bytes → Snapshot → Option Snapshot
  load_onto [] snap = some snap
  load_onto ((k, v) ∷ rest) snap = and_then (J.unmarshal v) (λ s. load_onto rest (insert k s snap))

  -- `LoadBase`
  unfoldable pub load_base : B.State → Option Snapshot
  unfolding load_onto
  load_base s = load_onto (B.entries s) []

  -- A key that the snapshot lacks.
  abbrev pub is_outdated : Snapshot → Bytes → Bool
  is_outdated snap k = elim (lookup k snap) [ none ↦ true | some _ ↦ false ]

  drop_stale : Snapshot → List Bytes → B.State → B.State
  drop_stale snap [] s = s
  drop_stale snap (k ∷ ks) s =
      drop_stale snap ks (elim (lookup k snap) [ none ↦ or_same s (B.delete s k) | some _ ↦ s ])

  put_state : B.State → FilePath → Option FileState → Option B.State
  put_state s path f = and_then (J.marshal f) (B.put s path)

  put_states : Snapshot → B.State → Option B.State
  put_states [] s = some s
  put_states ((path, f) ∷ snap) s = and_then (put_state s path (some f)) (put_states snap)

  -- `SaveBase`
  unfoldable pub save_base : Snapshot → B.State → Option B.State
  unfolding drop_stale put_states put_state
  save_base snap s = put_states snap (drop_stale snap (B.visited (is_outdated snap) s) s)

  -- `UpdateFile`
  unfoldable pub update_file : B.State → FileState → Option B.State
  unfolding put_state
  update_file s f = put_state s f.path (some f)

  -- `DeleteFile`
  unfoldable pub delete_file : B.State → FilePath → Option B.State
  delete_file s path = B.delete s path

  replay_entry : WalEntry → B.State → Option B.State
  replay_entry e s =
      if e.op == codes "set"
      then put_state s e.path e.state
      else if e.op == codes "delete"
      then some (or_same s (B.delete s e.path))
      else some s

  replay_entries : List WalEntry → B.State → Option B.State
  replay_entries [] s = some s
  replay_entries (e ∷ es) s = and_then (replay_entry e s) (replay_entries es)

  unfoldable pub wal_entries : Dict Bytes Bytes → Option (List WalEntry)
  wal_entries [] = some []
  wal_entries ((_, v) ∷ rest) =
      and_then (J.unmarshal_entry v) (λ e. and_then (wal_entries rest) (λ es. some (e ∷ es)))

  clear : List Bytes → B.State → B.State
  clear [] s = s
  clear (k ∷ ks) s = clear ks (or_same s (B.delete s k))

  replay_all : List WalEntry → B.State → B.State → Option (B.State × B.State)
  replay_all [] s w = some (s, w)
  replay_all (e ∷ es) s w =
      and_then (replay_entries (e ∷ es) s) (λ t. some (t, clear (B.visited (λ k. true) w) w))

  -- `replayWAL`, on the bucket of the states and that of the log.
  unfoldable pub replay_wal : B.State → B.State → Option (B.State × B.State)
  unfolding replay_all replay_entries replay_entry wal_entries clear put_state
  replay_wal s w = and_then (wal_entries (B.entries w)) (λ es. replay_all es s w)
