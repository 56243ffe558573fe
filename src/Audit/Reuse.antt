-- ===== src/Audit/Reuse.antt =====
-- pkg/audit/audit.go: the entries that a report has, counted by name.
use binpass.Prelude.{
  ℕ, suc, ◌+◌, ◌-◌, ◌≤◌, true, List, [], ◌∷◌, ◌++◌, Bytes, ltb, ◌==◌, bytes_eq, if◌then◌else◌,
  length, contains, ◌≡◌, refl, sym, ap, subst, ◌∙◌, arith, All, Bool-cases, inl, inr, ==-same,
  ==-eq,
}
use binpass.Prelude.Dict.{Dict, lookup, insert}
use binpass.Audit.Findings.{critical, warning, info, Finding, EntryResult}
use binpass.Audit.Count.{count, count_of_contains}
use binpass.Audit.{
  or_nil, note_digest, with_findings, add_reuse, add_reuses, find_reused, count_worst,
}

unfoldable pub names_of : List EntryResult → List Bytes
names_of [] = []
names_of (r ∷ rs) = r.name ∷ names_of rs

pub count_worst-length :
    (rs : List EntryResult)
    → count_worst critical rs + count_worst warning rs + count_worst info rs ≡ length rs
unfolding count_worst
count_worst-length [] = refl
count_worst-length (r ∷ rs) = ground (arith, count_worst-length rs)

pub length-names_of : (rs : List EntryResult) → length (names_of rs) ≡ length rs
unfolding names_of
length-names_of [] = refl
length-names_of (r ∷ rs) = ap suc (length-names_of rs)

count-concat :
    (x n : Bytes) (rs : List EntryResult) (fs : List Finding)
    → count x (names_of (rs ++ record { name = n; findings = fs } ∷ []))
      ≡ count x (names_of rs) + (if x == n then 1 else 0)
unfolding count names_of
count-concat x n [] fs = ground arith
count-concat x n (r ∷ rs) fs = ground (arith, count-concat x n rs fs)

-- An entry that is added for a reused password stands for a name that had none.
count-add_reuse :
    (n k : ℕ) (x name : Bytes) (rs : List EntryResult)
    → count x (names_of rs) ≤ k
    → ((x == name) ≡ true → 1 ≤ k)
    → count x (names_of (add_reuse n name rs)) ≤ k
unfolding count names_of add_reuse
count-add_reuse n k x name [] le one = ground arith
count-add_reuse n k x name (r ∷ rs) le one = elim (Bool-cases (r.name == name)) [
  | inl same ↦ rw same le
  | inr other ↦ rw other (elim (Bool-cases (x == r.name)) [
    | inl here ↦
        let no : (x == name) ≡ true → 1 ≤ k - 1 = λ e.
          (let a = ==-eq x r.name here in
            let b = ==-eq x name e in
            let c = ==-same name in
            let d : (r.name == name) ≡ true = subst (λ y. (y == name) ≡ true) (sym (sym a ∙ b)) c in
            cc) in
        let low : suc (count x (names_of rs)) ≤ k = rw here at le in
        rw here (omega (arith, count-add_reuse n (k - 1) x name rs (omega arith) no))
    | inr there ↦ rw there (count-add_reuse n k x name rs (ground arith) one)
  ])
]

count-add_reuses :
    (n : ℕ) (names audited : List Bytes) (rs : List EntryResult)
    → All (λ m. contains audited m ≡ true) names
    → ((x : Bytes) → count x (names_of rs) ≤ count x audited)
    → (x : Bytes) → count x (names_of (add_reuses n names rs)) ≤ count x audited
unfolding add_reuses
count-add_reuses n [] audited rs known le x = le x
count-add_reuses n (m ∷ names) audited rs (here, known) le x =
    count-add_reuses n names audited (add_reuse n m rs) known
      (λ z. count-add_reuse n (count z audited) z m rs (le z) (λ e.
        subst (λ y. 1 ≤ count y audited) (sym (==-eq z m e)) (count_of_contains m audited here)))
      x

-- Every name that was noted under a digest was audited.
abbrev pub Noted : List Bytes → Dict Bytes (List Bytes) → Type 0
Noted audited = All (λ q. All (λ m. contains audited m ≡ true) q.1)

pub count-find_reused :
    (d : Dict Bytes (List Bytes)) (audited : List Bytes) (rs : List EntryResult)
    → Noted audited d
    → ((x : Bytes) → count x (names_of rs) ≤ count x audited)
    → (x : Bytes) → count x (names_of (find_reused d rs)) ≤ count x audited
unfolding find_reused
count-find_reused [] audited rs noted le x = le x
count-find_reused ((h, names) ∷ d) audited rs (here, noted) le x =
    elim (Bool-cases (ltb (length names) 2)) [
      | inl few ↦ rw few (count-find_reused d audited rs noted le x)
      | inr many ↦ rw many (
          count-find_reused d audited (add_reuses (length names) names rs) noted
            (count-add_reuses (length names) names audited rs here le) x)
    ]

All-later :
    (audited : List Bytes) (name : Bytes) (names : List Bytes)
    → All (λ m. contains audited m ≡ true) names
    → All (λ m. contains (name ∷ audited) m ≡ true) names
All-later audited name [] h = tt
All-later audited name (m ∷ names) (here, h) = (ground arith, All-later audited name names h)

All-concat :
    (audited : List Bytes) (name : Bytes) (names : List Bytes)
    → All (λ m. contains audited m ≡ true) names
    → All (λ m. contains (name ∷ audited) m ≡ true) (names ++ name ∷ [])
All-concat audited name [] h = (ground (arith, ==-same name), tt)
All-concat audited name (m ∷ names) (here, h) = (ground arith, All-concat audited name names h)

pub Noted-later :
    (audited : List Bytes) (name : Bytes) (d : Dict Bytes (List Bytes))
    → Noted audited d
    → Noted (name ∷ audited) d
Noted-later audited name [] h = tt
Noted-later audited name ((k, names) ∷ d) (here, h) =
    (All-later audited name names here, Noted-later audited name d h)

Noted-insert :
    (audited : List Bytes) (h : Bytes) (names : List Bytes) (d : Dict Bytes (List Bytes))
    → All (λ m. contains audited m ≡ true) names
    → Noted audited d
    → Noted audited (insert h names d)
unfolding insert
Noted-insert audited h names [] all noted = (all, tt)
Noted-insert audited h names ((k, old) ∷ d) all (here, noted) = elim (Bool-cases (h == k)) [
  | inl same ↦ rw same (all, noted)
  | inr other ↦ rw other (here, Noted-insert audited h names d all noted)
]

Noted-lookup :
    (audited : List Bytes) (h : Bytes) (d : Dict Bytes (List Bytes))
    → Noted audited d
    → All (λ m. contains audited m ≡ true) (or_nil (lookup h d))
unfolding lookup
Noted-lookup audited h [] noted = tt
Noted-lookup audited h ((k, old) ∷ d) (here, noted) = elim (Bool-cases (h == k)) [
  | inl same ↦ rw same here
  | inr other ↦ rw other (Noted-lookup audited h d noted)
]

pub note_digest-Noted :
    (audited : List Bytes) (h name : Bytes) (d : Dict Bytes (List Bytes))
    → Noted audited d
    → Noted (name ∷ audited) (note_digest h name d)
unfolding note_digest
note_digest-Noted audited h name d noted =
    Noted-insert (name ∷ audited) h (or_nil (lookup h d) ++ name ∷ []) d
      (All-concat audited name (or_nil (lookup h d)) (Noted-lookup audited h d noted))
      (Noted-later audited name d noted)

pub with_findings-count :
    (x name : Bytes) (fs : List Finding) (rs : List EntryResult) (audited : List Bytes)
    → count x (names_of rs) ≤ count x audited
    → count x (names_of (with_findings name fs rs)) ≤ count x (name ∷ audited)
unfolding count
with_findings-count x name [] rs audited le = ground arith
with_findings-count x name (f ∷ fs) rs audited le = ground (arith, count-concat x name rs (f ∷ fs))
