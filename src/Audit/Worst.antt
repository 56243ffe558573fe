-- ===== src/Audit/Worst.antt =====
-- pkg/audit/report.go: the severity that an entry of a report is counted under.
use binpass.Prelude.{
  ℕ, ◌≤◌, Bool, true, false, List, [], ◌∷◌, ◌++◌, Bytes, ltb, ◌==◌, bytes_eq, nat_eqb,
  if◌then◌else◌, length, ◌≡◌, refl, arith, All, Bool-cases, inl, inr, ok, err,
}
use binpass.Prelude.Dict.{Dict}
use binpass.Audit.Expiry.{Time}
use binpass.Audit.Findings.{
  Severity, critical, warning, info, rank, Finding, EntryResult, has_severity, worst_severity,
  comes_before, insert_result, sort_entries,
}
use binpass.Audit.{
  Checks, Options, Decrypted, Progress, findings_of, with_findings, shared_finding, audit_entry,
  audit_entries, add_reuse, add_reuses, find_reused, count_worst,
}

-- Some finding has the severity.
data Among (s : Severity) : List Finding → Type 0 where
  here : {f : Finding} {fs : List Finding} → rank f.severity ≡ rank s → Among s (f ∷ fs)
  later : {f : Finding} {fs : List Finding} → Among s fs → Among s (f ∷ fs)

-- Some finding has the severity, and none a worse one.
pub record IsWorst (s : Severity) (fs : List Finding) : Type 0 where
  among : Among s fs
  none_worse : All (λ f. rank s ≤ rank f.severity) fs

-- An entry that is counted under the worst severity of its findings.
abbrev pub IsRanked : EntryResult → Type 0
IsRanked r = IsWorst (worst_severity r.findings) r.findings

has_severity-Among : (s : Severity) (fs : List Finding) → has_severity s fs ≡ true → Among s fs
unfolding has_severity
has_severity-Among s [] h = cc
has_severity-Among s (f ∷ fs) h = elim (Bool-cases (nat_eqb (rank f.severity) (rank s))) [
  | inl same ↦ here (ground (arith, same))
  | inr other ↦ later (has_severity-Among s fs (ground (arith, h, other)))
]

All-from : (fs : List Finding) → All (λ f. 0 ≤ rank f.severity) fs
All-from [] = tt
All-from (f ∷ fs) = (omega arith, All-from fs)

rank_cases : (s : Severity) → nat_eqb (rank s) 0 ≡ false → 1 ≤ rank s
rank_cases critical h = cc
rank_cases warning h = omega arith
rank_cases info h = omega arith

none_critical :
    (fs : List Finding) → has_severity critical fs ≡ false → All (λ f. 1 ≤ rank f.severity) fs
unfolding has_severity
none_critical [] h = tt
none_critical (f ∷ fs) h = elim (Bool-cases (nat_eqb (rank f.severity) 0)) [
  | inl same ↦ ground (arith, h, same)
  | inr other ↦ (rank_cases f.severity other, none_critical fs (ground (arith, h, other)))
]

rank_two : (s : Severity) → nat_eqb (rank s) 0 ≡ false → nat_eqb (rank s) 1 ≡ false → rank s ≡ 2
rank_two critical h i = cc
rank_two warning h i = cc
rank_two info h i = refl

none_warning :
    (fs : List Finding)
    → has_severity critical fs ≡ false
    → has_severity warning fs ≡ false
    → All (λ f. rank f.severity ≡ 2) fs
unfolding has_severity
none_warning [] c w = tt
none_warning (f ∷ fs) c w = elim (Bool-cases (nat_eqb (rank f.severity) 0)) [
  | inl same ↦ ground (arith, c, same)
  | inr lower ↦ elim (Bool-cases (nat_eqb (rank f.severity) 1)) [
    | inl same ↦ ground (arith, w, same)
    | inr lowest ↦ (
      rank_two f.severity lower lowest,
      none_warning fs (ground (arith, c, lower)) (ground (arith, w, lowest)),
    )
  ]
]

All-two :
    (fs : List Finding) → All (λ f. rank f.severity ≡ 2) fs → All (λ f. 2 ≤ rank f.severity) fs
All-two [] h = tt
All-two (f ∷ fs) (two, h) = (omega (arith, two), All-two fs h)

worst_severity-IsWorst :
    (f : Finding) (fs : List Finding) → IsWorst (worst_severity (f ∷ fs)) (f ∷ fs)
unfolding worst_severity
worst_severity-IsWorst f fs =
    let gs = f ∷ fs in
    elim (Bool-cases (has_severity critical gs)) [
      | inl c ↦ rw c (record { among = has_severity-Among critical gs c; none_worse = All-from gs })
      | inr c ↦ elim (Bool-cases (has_severity warning gs)) [
        | inl w ↦ rw c (
            rw w
              (record { among = has_severity-Among warning gs w; none_worse = none_critical gs c }))
        | inr w ↦ rw c (
            rw w (
              let (two, rest) = none_warning gs c w in
              record { among = here two; none_worse = All-two gs (two, rest) }))
      ]
    ]

-- A finding that is put behind others leaves none of the lists empty.
IsRanked-with :
    (name : Bytes) (fs : List Finding) (f : Finding)
    → IsRanked (record { name = name; findings = fs ++ f ∷ [] })
IsRanked-with name [] f = worst_severity-IsWorst f []
IsRanked-with name (g ∷ fs) f = worst_severity-IsWorst g (fs ++ f ∷ [])

with_findings-IsRanked :
    (name : Bytes) (fs : List Finding) (rs : List EntryResult)
    → All IsRanked rs
    → All IsRanked (with_findings name fs rs)
with_findings-IsRanked name [] rs h = h
with_findings-IsRanked name (f ∷ fs) [] h = (worst_severity-IsWorst f fs, tt)
with_findings-IsRanked name (f ∷ fs) (r ∷ rs) (is, h) =
    (is, with_findings-IsRanked name (f ∷ fs) rs h)

add_reuse-IsRanked :
    (n : ℕ) (name : Bytes) (rs : List EntryResult)
    → All IsRanked rs
    → All IsRanked (add_reuse n name rs)
unfolding add_reuse
add_reuse-IsRanked n name [] h = (worst_severity-IsWorst (shared_finding n) [], tt)
add_reuse-IsRanked n name (r ∷ rs) (is, h) = elim (Bool-cases (r.name == name)) [
  | inl same ↦ rw same (IsRanked-with r.name r.findings (shared_finding n), h)
  | inr other ↦ rw other (is, add_reuse-IsRanked n name rs h)
]

add_reuses-IsRanked :
    (n : ℕ) (names : List Bytes) (rs : List EntryResult)
    → All IsRanked rs
    → All IsRanked (add_reuses n names rs)
unfolding add_reuses
add_reuses-IsRanked n [] rs h = h
add_reuses-IsRanked n (name ∷ names) rs h =
    add_reuses-IsRanked n names (add_reuse n name rs) (add_reuse-IsRanked n name rs h)

find_reused-IsRanked :
    (d : Dict Bytes (List Bytes)) (rs : List EntryResult)
    → All IsRanked rs
    → All IsRanked (find_reused d rs)
unfolding find_reused
find_reused-IsRanked [] rs h = h
find_reused-IsRanked ((_, names) ∷ d) rs h = elim (Bool-cases (ltb (length names) 2)) [
  | inl few ↦ rw few (find_reused-IsRanked d rs h)
  | inr many ↦ rw many (
      find_reused-IsRanked d (add_reuses (length names) names rs)
        (add_reuses-IsRanked (length names) names rs h))
]

pub reuse-IsRanked :
    (reuse : Bool) (d : Dict Bytes (List Bytes)) (rs : List EntryResult)
    → All IsRanked rs
    → All IsRanked (if reuse then find_reused d rs else rs)
reuse-IsRanked true d rs h = find_reused-IsRanked d rs h
reuse-IsRanked false d rs h = h

insert_result-IsRanked :
    (r : EntryResult) (rs : List EntryResult)
    → IsRanked r
    → All IsRanked rs
    → All IsRanked (insert_result r rs)
unfolding insert_result
insert_result-IsRanked r [] is h = (is, tt)
insert_result-IsRanked r (q ∷ rs) is (first, h) = elim (Bool-cases (comes_before q r)) [
  | inl before ↦ rw before (first, insert_result-IsRanked r rs is h)
  | inr not_before ↦ rw not_before (is, (first, h))
]

pub sort_entries-IsRanked :
    (rs : List EntryResult) → All IsRanked rs → All IsRanked (sort_entries rs)
unfolding sort_entries
sort_entries-IsRanked [] h = tt
sort_entries-IsRanked (r ∷ rs) (is, h) =
    insert_result-IsRanked r (sort_entries rs) is (sort_entries-IsRanked rs h)

count_worst-insert_result :
    (s : Severity) (r : EntryResult) (rs : List EntryResult)
    → count_worst s (insert_result r rs) ≡ count_worst s (r ∷ rs)
unfolding insert_result count_worst
count_worst-insert_result s r [] = refl
count_worst-insert_result s r (q ∷ rs) = ground (arith, count_worst-insert_result s r rs)

pub count_worst-sort_entries :
    (s : Severity) (rs : List EntryResult) → count_worst s (sort_entries rs) ≡ count_worst s rs
unfolding sort_entries count_worst
count_worst-sort_entries s [] = refl
count_worst-sort_entries s (r ∷ rs) =
    ground (arith, count_worst-insert_result s r (sort_entries rs), count_worst-sort_entries s rs)

module _ (lib : Checks) (opts : Options) (now : Time) where
  pub audit_entries-IsRanked :
      (ds : List Decrypted) (p : Progress)
      → All IsRanked p.entries
      → All IsRanked (audit_entries lib opts now ds p).entries
  unfolding audit_entries audit_entry
  audit_entries-IsRanked [] p h = h
  audit_entries-IsRanked ((name, ok sec) ∷ ds) p h =
      audit_entries-IsRanked ds (audit_entry lib opts now (name, ok sec) p)
        (with_findings-IsRanked name (findings_of lib opts now sec) p.entries h)
  audit_entries-IsRanked ((name, err e) ∷ ds) p h =
      audit_entries-IsRanked ds (audit_entry lib opts now (name, err e) p) h
