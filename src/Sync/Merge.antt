-- ===== src/Sync/Merge.antt =====
-- pkg/sync/merge.go: the decision for a file, and the plan for a store.
pub mod Deterministic
pub mod OneStore
pub mod Order
pub mod Plan
pub mod Recorded
pub mod Symmetry
pub mod Safety
pub mod Decision
use binpass.Prelude.{
  ℕ, Bool, true, false, not, ◌&&◌, ◌||◌, List, [], ◌∷◌, ◌++◌, Option, none, some, Bytes, ltb,
  nat_eqb, ◌==◌, bytes_eq, if◌then◌else◌, contains,
}
use binpass.Prelude.Dict.{Dict, lookup, keys}
use binpass.Secret.{Secret}
use binpass.Otp.{Codecs}
use binpass.Sync.Version.{VersionVector, clone, equal, dominates, merge as join}
use binpass.Sync.State.{FilePath, FileState, Snapshot, Opener, no_digest}
use binpass.Sync.Hotp.{merged_counter}

pub data ActionKind : Type 0 where
  act_none act_push act_pull act_conflict act_delete act_merge_hotp : ActionKind

-- The texts of `Reason`, one to a branch.
pub data Reason : Type 0 where
  new_local new_remote deleted_locally remote_edit_wins deleted_remotely local_edit_wins : Reason
  deleted_on_both identical_content created_independently : Reason
  versions_equal local_dominates remote_dominates identical_ciphertexts versions_diverge : Reason
  hotp_merged stale_base : Reason

-- A nil `MergedVersion` is `none`.
pub record Action : Type 0 where
  pub path : FilePath
  pub kind : ActionKind
  pub reason : Reason
  pub local : Option FileState
  pub remote : Option FileState
  pub base : Option FileState
  pub merged_version : Option VersionVector
  pub merged_counter : ℕ

-- The states of one path that an action carries along.
pub record Sides : Type 0 where
  pub path : FilePath
  pub local : Option FileState
  pub remote : Option FileState
  pub base : Option FileState

abbrev pub decide : Sides → ActionKind → Reason → Option VersionVector → ℕ → Action
decide s k why v n = record {
  path = s.path;
  kind = k;
  reason = why;
  local = s.local;
  remote = s.remote;
  base = s.base;
  merged_version = v;
  merged_counter = n;
}

module _ (lib : Codecs) where
  -- `tryHOTPMerge`
  opened : Sides → FileState → FileState → Option Secret → Option Secret → Option Action
  opened s l r (some a) (some b) = elim (merged_counter lib a b) [
    | none ↦ none
    | some n ↦ some (decide s act_merge_hotp hotp_merged (some (join l.version r.version)) n)
  ]
  opened s l r _ _ = none

  unfoldable pub try_hotp_merge : Sides → FileState → FileState → Opener → Option Action
  unfolding opened
  try_hotp_merge s l r open_file = opened s l r (open_file l.path) (open_file r.path)

  pub with_opener : Sides → FileState → FileState → Option Opener → Option Action
  with_opener s l r none = none
  with_opener s l r (some opener) = try_hotp_merge s l r opener

  abbrev pub conflict_of : Sides → FileState → FileState → Action
  conflict_of s l r = decide s act_conflict versions_diverge (some (join l.version r.version)) 0

  -- `mergeExisting` behind its three comparisons of the version vectors.
  pub diverged : Sides → FileState → FileState → Option Opener → Action
  unfolding with_opener
  diverged s l r opener =
      if l.hash == r.hash
      then decide s act_none identical_ciphertexts (some (join l.version r.version)) 0
      else elim (with_opener s l r opener) [ some a ↦ a | none ↦ conflict_of s l r ]

  unfoldable pub merge_existing : Sides → FileState → FileState → Option Opener → Action
  unfolding diverged
  merge_existing s l r opener =
      if equal l.version r.version
      then decide s act_none versions_equal (some (clone l.version)) 0
      else if dominates l.version r.version
      then decide s act_push local_dominates (some (clone l.version)) 0
      else if dominates r.version l.version
      then decide s act_pull remote_dominates (some (clone r.version)) 0
      else diverged s l r opener

  classify : Sides → Option FileState → Option FileState → Option FileState → Option Opener → Action
  classify s (some l) (some r) (some b) opener = merge_existing s l r opener
  classify s (some l) none none opener = decide s act_push new_local (some (clone l.version)) 0
  classify s none (some r) none opener = decide s act_pull new_remote (some (clone r.version)) 0
  classify s none (some r) (some b) opener =
      if equal r.version b.version
      then decide s act_delete deleted_locally none 0
      else decide s act_pull remote_edit_wins (some (clone r.version)) 0
  classify s (some l) none (some b) opener =
      if equal l.version b.version
      then decide s act_delete deleted_remotely none 0
      else decide s act_push local_edit_wins (some (clone l.version)) 0
  classify s none none (some b) opener = decide s act_delete deleted_on_both none 0
  classify s (some l) (some r) none opener =
      if l.hash == r.hash && not (l.hash == no_digest)
      then decide s act_none identical_content (some (join l.version r.version)) 0
      else decide s act_conflict created_independently (some (join l.version r.version)) 0
  classify s none none none opener = decide s act_delete stale_base none 0

  -- `mergeFile`
  unfoldable pub merge_file :
      FilePath → Option FileState → Option FileState → Option FileState → Option Opener → Action
  unfolding classify
  merge_file p l r b opener =
      classify (record { path = p; local = l; remote = r; base = b }) l r b opener

-- The order of strings, by bytes.
unfoldable pub bytes_ltb : Bytes → Bytes → Bool
bytes_ltb a [] = false
bytes_ltb [] (d ∷ b) = true
bytes_ltb (c ∷ a) (d ∷ b) = ltb c d || (nat_eqb c d && bytes_ltb a b)

-- The set of the paths: a key that is stored twice is there once.
add_path : List FilePath → FilePath → List FilePath
add_path ps p = if contains ps p then ps else p ∷ ps

add_paths : List FilePath → List FilePath → List FilePath
add_paths ps [] = ps
add_paths ps (q ∷ qs) = add_paths (add_path ps q) qs

unfoldable pub all_paths : Snapshot → Snapshot → Snapshot → List FilePath
unfolding add_paths add_path
all_paths local remote base =
    add_paths (add_paths (add_paths [] (keys local)) (keys remote)) (keys base)

-- `sort.Slice` by path. The paths differ, so that any sort gives this list.
insert_by_path : Action → List Action → List Action
insert_by_path a [] = a ∷ []
insert_by_path a (b ∷ bs) =
    let rest = insert_by_path a bs in if bytes_ltb b.path a.path then b ∷ rest else a ∷ b ∷ bs

sort_by_path : List Action → List Action
sort_by_path [] = []
sort_by_path (a ∷ actions) = insert_by_path a (sort_by_path actions)

module _ (lib : Codecs) where
  merge_paths : Snapshot → Snapshot → Snapshot → Option Opener → List FilePath → List Action
  merge_paths local remote base opener [] = []
  merge_paths local remote base opener (p ∷ ps) =
      merge_file lib p (lookup p local) (lookup p remote) (lookup p base) opener
      ∷ merge_paths local remote base opener ps

  -- `Merge`
  unfoldable pub merge : Snapshot → Snapshot → Snapshot → Option Opener → List Action
  unfolding merge_paths sort_by_path insert_by_path
  merge local remote base opener =
      sort_by_path (merge_paths local remote base opener (all_paths local remote base))
