-- ===== src/Audit/Findings.antt =====
-- pkg/audit/report.go: findings, and the order of a report.
use binpass.Prelude.{
  ℕ, ◌-◌, Bool, true, false, List, [], ◌∷◌, Bytes, ltb, leb, nat_eqb, if◌then◌else◌, ℤ, pos, negsuc,
}
use binpass.Sync.Merge.{bytes_ltb}
use binpass.Audit.Expiry.{Time}

-- `Severity`
pub data Severity : Type 0 where
  critical warning info : Severity

-- `Kind`
pub data Kind : Type 0 where
  leaked weak reused expired : Kind

pub data Detail : Type 0 where
  check_failed : Bytes → Detail
  in_database : Detail
  scored : ℕ → Detail
  expired_on : Time → Detail
  shared_by : ℕ → Detail

-- `Finding`
pub record Finding : Type 0 where
  pub kind : Kind
  pub severity : Severity
  pub detail : Detail

-- `EntryResult`
pub record EntryResult : Type 0 where
  pub name : Bytes
  pub findings : List Finding

abbrev pub rank : Severity → ℕ
rank critical = 0
rank warning = 1
rank info = 2

-- Some finding has a severity.
unfoldable pub has_severity : Severity → List Finding → Bool
has_severity s [] = false
has_severity s (f ∷ fs) =
    let rest = has_severity s fs in if nat_eqb (rank f.severity) (rank s) then true else rest

-- `worstSeverity`
unfoldable pub worst_severity : List Finding → Severity
unfolding has_severity
worst_severity fs =
    if has_severity critical fs then critical else if has_severity warning fs then warning else info

-- The comparison of `sortEntries`.
unfoldable pub comes_before : EntryResult → EntryResult → Bool
unfolding worst_severity
comes_before a b =
    let i = rank (worst_severity a.findings) in
    let j = rank (worst_severity b.findings) in
    if nat_eqb i j then bytes_ltb a.name b.name else ltb i j

unfoldable pub insert_result : EntryResult → List EntryResult → List EntryResult
insert_result r [] = r ∷ []
insert_result r (q ∷ rs) =
    let rest = insert_result r rs in if comes_before q r then q ∷ rest else r ∷ q ∷ rs

-- `sortEntries`
unfoldable pub sort_entries : List EntryResult → List EntryResult
unfolding insert_result comes_before
sort_entries [] = []
sort_entries (r ∷ rs) = insert_result r (sort_entries rs)

-- `filterBySeverity`
unfoldable pub filter_by_severity : List EntryResult → Severity → List EntryResult
unfolding has_severity
filter_by_severity [] s = []
filter_by_severity (r ∷ rs) s =
    let rest = filter_by_severity rs s in if has_severity s r.findings then r ∷ rest else rest

-- A difference of counters.
abbrev pub minus : ℕ → ℕ → ℤ
minus a b = if leb b a then pos (a - b) else negsuc (b - a - 1)
