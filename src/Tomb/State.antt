-- ===== src/Tomb/State.antt =====
-- State and Backend of pkg/tomb/tomb.go: what is written down of an open container.
use binpass.Prelude.{ℕ, Bool, false, Bytes, nat_eqb, if◌then◌else◌}

-- `Backend`
pub data Backend : Type 0 where
  coffin luks sparse_bundle : Backend

-- `State`; times are numbers of nanoseconds.
pub record State : Type 0 where
  pub backend : Backend
  pub store_dir : Bytes
  pub coffin_path : Bytes
  pub mount_point : Bytes
  pub mapper_name : Bytes
  pub opened_at : ℕ
  pub timer : ℕ
  pub pid : ℕ

-- `IsStale`, over the test whether a process has ended.
unfoldable pub is_stale : (ℕ → Bool) → State → Bool
is_stale pid_is_dead s = if nat_eqb s.pid 0 then false else pid_is_dead s.pid
