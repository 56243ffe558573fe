-- ===== src/Audit.antt =====
-- pkg/audit/audit.go: the audit of a store's passwords. The texts of details are constructors.
pub mod Expiry
pub mod Findings
pub mod Count
pub mod Reuse
pub mod Relative
pub mod Sums
pub mod Worst
use binpass.Prelude.{
  ℕ, suc, ◌+◌, Bool, true, false, not, ◌&&◌, List, [], ◌∷◌, ◌++◌, Option, none, some, Bytes, ltb,
  ◌==◌, bytes_eq, if◌then◌else◌, length, Result, ok, err, ℤ,
}
use binpass.Prelude.Dict.{Dict, lookup, insert}
use binpass.Secret.{Secret, password}
use binpass.Audit.Expiry.{Time, Clock, check_expiry}
use binpass.Audit.Findings.{
  Severity, critical, warning, info, Kind, leaked, weak, reused, expired, Detail, check_failed,
  in_database, scored, expired_on, shared_by, Finding, EntryResult, worst_severity, sort_entries,
  minus,
}

-- `SkippedEntry`
pub record SkippedEntry : Type 0 where
  pub name : Bytes
  pub failure : Bytes

-- `Stats`
pub record Stats : Type 0 where
  pub total : ℕ
  pub audited : ℕ
  pub critical : ℕ
  pub warning : ℕ
  pub info : ℕ
  pub clean : ℤ

-- `Report`
pub record Report : Type 0 where
  pub entries : List EntryResult
  pub skipped : List SkippedEntry
  pub stats : Stats

-- `Options`, without the number of goroutines.
pub record Options : Type 0 where
  pub hibp : Bool
  pub strength : Bool
  pub reuse : Bool
  pub expired : Bool
  pub only : List Bytes

-- What the audit uses of other code: the Have I Been Pwned client, zxcvbn, SHA-1, path.Match, the
-- clock and strings.EqualFold.
pub record Checks : Type 0 where
  pub leaked : Bytes → Result Bytes Bool
  pub score : Bytes → ℕ
  pub digest : Bytes → Bytes
  pub path_match : Bytes → Bytes → Option Bool
  pub clock : Clock
  pub equal_fold : Bytes → Bytes → Bool

-- `passwordStrength`
unfoldable pub password_strength : Checks → Bytes → ℕ
password_strength lib [] = 0
password_strength lib (c ∷ pw) = lib.score (c ∷ pw)

abbrev leak_finding : Result Bytes Bool → List Finding
leak_finding (err e) = record { kind = leaked; severity = warning; detail = check_failed e } ∷ []
leak_finding (ok true) = record { kind = leaked; severity = critical; detail = in_database } ∷ []
leak_finding (ok false) = []

abbrev weak_finding : ℕ → List Finding
weak_finding score =
    if ltb score 2
    then record { kind = weak; severity = warning; detail = scored score } ∷ []
    else []

abbrev expiry_finding : Option Time → List Finding
expiry_finding none = []
expiry_finding (some t) = record { kind = expired; severity = info; detail = expired_on t } ∷ []

-- What the checks of one entry find.
unfoldable pub findings_of : Checks → Options → Time → Secret → List Finding
unfolding password_strength check_expiry password
findings_of lib opts now sec =
    (if opts.hibp then leak_finding (lib.leaked (password sec)) else [])
    ++ ((if opts.strength then weak_finding (password_strength lib (password sec)) else [])
        ++ (if opts.expired
            then expiry_finding (check_expiry lib.clock lib.equal_fold sec now)
            else []))

-- An entry as it was decrypted, or the error.
abbrev pub Decrypted : Type 0
Decrypted = Bytes × Result Bytes Secret

-- What the loop over the entries has collected.
pub record Progress : Type 0 where
  pub entries : List EntryResult
  pub skipped : List SkippedEntry
  pub audited : ℕ
  pub by_digest : Dict Bytes (List Bytes)

abbrev pub or_nil : Option (List Bytes) → List Bytes
or_nil none = []
or_nil (some names) = names

unfoldable pub note_digest : Bytes → Bytes → Dict Bytes (List Bytes) → Dict Bytes (List Bytes)
note_digest h name d = insert h (or_nil (lookup h d) ++ name ∷ []) d

abbrev pub with_findings : Bytes → List Finding → List EntryResult → List EntryResult
with_findings name [] entries = entries
with_findings name (f ∷ fs) entries = entries ++ record { name = name; findings = f ∷ fs } ∷ []

-- One round of the loop over the entries.
unfoldable pub audit_entry : Checks → Options → Time → Decrypted → Progress → Progress
unfolding findings_of note_digest password
audit_entry lib opts now (name, err e) p = record p {
  skipped = p.skipped ++ record { name = name; failure = e } ∷ [];
}
audit_entry lib opts now (name, ok sec) p = record p {
  entries = with_findings name (findings_of lib opts now sec) p.entries;
  audited = suc p.audited;
  by_digest =
      if opts.reuse && not (password sec == [])
      then note_digest (lib.digest (password sec)) name p.by_digest
      else p.by_digest;
}

unfoldable pub audit_entries : Checks → Options → Time → List Decrypted → Progress → Progress
unfolding audit_entry
audit_entries lib opts now [] p = p
audit_entries lib opts now (d ∷ ds) p = audit_entries lib opts now ds (audit_entry lib opts now d p)

abbrev pub shared_finding : ℕ → Finding
shared_finding n = record { kind = reused; severity = warning; detail = shared_by n }

-- The finding of a reused password, put to the entry or to a new one.
unfoldable pub add_reuse : ℕ → Bytes → List EntryResult → List EntryResult
add_reuse n name [] = record { name = name; findings = shared_finding n ∷ [] } ∷ []
add_reuse n name (r ∷ rs) =
    let rest = add_reuse n name rs in
    if r.name == name
    then record r { findings = r.findings ++ shared_finding n ∷ [] } ∷ rs
    else r ∷ rest

unfoldable pub add_reuses : ℕ → List Bytes → List EntryResult → List EntryResult
unfolding add_reuse
add_reuses n [] entries = entries
add_reuses n (name ∷ names) entries = add_reuses n names (add_reuse n name entries)

-- The loop over the digests.
unfoldable pub find_reused : Dict Bytes (List Bytes) → List EntryResult → List EntryResult
unfolding add_reuses
find_reused [] entries = entries
find_reused ((_, names) ∷ d) entries =
    find_reused d
      (if ltb (length names) 2 then entries else add_reuses (length names) names entries)

abbrev same_severity : Severity → Severity → Bool
same_severity critical critical = true
same_severity warning warning = true
same_severity info info = true
same_severity _ _ = false

-- How many entries have a severity as their worst.
unfoldable pub count_worst : Severity → List EntryResult → ℕ
unfolding worst_severity
count_worst s [] = 0
count_worst s (r ∷ rs) =
    let rest = count_worst s rs in
    if same_severity (worst_severity r.findings) s then suc rest else rest

unfoldable pub stats_of : ℕ → ℕ → List EntryResult → Stats
unfolding count_worst
stats_of total audited entries = record {
  total = total;
  audited = audited;
  critical = count_worst critical entries;
  warning = count_worst warning entries;
  info = count_worst info entries;
  clean =
      minus audited
        (count_worst critical entries + count_worst warning entries + count_worst info entries);
}

abbrev pub started : Progress
started = record { entries = []; skipped = []; audited = 0; by_digest = [] }

-- `Run` behind the decryption, in the order in which the entries were decrypted.
unfoldable pub report_of : Checks → Options → Time → List Decrypted → Report
unfolding audit_entries find_reused stats_of sort_entries
report_of lib opts now decrypted =
    let p = audit_entries lib opts now decrypted started in
    let entries = if opts.reuse then find_reused p.by_digest p.entries else p.entries in
    record {
      entries = sort_entries entries;
      skipped = p.skipped;
      stats = stats_of (length decrypted) p.audited entries;
    }

abbrev is_match : Option Bool → Bool
is_match none = false
is_match (some b) = b

unfoldable pub matches_any : Checks → List Bytes → Bytes → Bool
matches_any lib [] name = false
matches_any lib (p ∷ ps) name =
    let rest = matches_any lib ps name in if is_match (lib.path_match p name) then true else rest

-- `filterEntries`
unfoldable pub filter_entries : Checks → List Bytes → List Bytes → List Bytes
unfolding matches_any
filter_entries lib patterns [] = []
filter_entries lib patterns (n ∷ names) =
    let rest = filter_entries lib patterns names in
    if matches_any lib patterns n then n ∷ rest else rest

abbrev selected : Checks → List Bytes → List Bytes → List Bytes
selected lib [] names = names
selected lib (p ∷ only) names = filter_entries lib (p ∷ only) names

abbrev decrypt_all : (Bytes → Result Bytes Secret) → List Bytes → List Decrypted
decrypt_all get [] = []
decrypt_all get (n ∷ names) = (n, get n) ∷ decrypt_all get names

-- `Run`, one entry after the other.
unfoldable pub run_audit :
    Checks → Options → Time → (Bytes → Result Bytes Secret) → List Bytes → Report
unfolding filter_entries report_of
run_audit lib opts now get names =
    report_of lib opts now (decrypt_all get (selected lib opts.only names))
