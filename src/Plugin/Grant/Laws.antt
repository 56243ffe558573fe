-- ===== src/Plugin/Grant/Laws.antt =====
-- pkg/plugin/lock.go: an approval that is still valid covers all that the manifest asks for.
use binpass.Prelude.{
  ℕ, zero, suc, ◌-◌, true, false, ◌||◌, List, [], ◌∷◌, ◌++◌, some, Bytes, codes, bytes_eq, length,
  drop, contains, ◌≡◌, ◌≢◌, inl, inr, refl, sym, ap, ◌∙◌, arith, Bool-cases, Option-cases,
  append_assoc, append-nil,
}
use binpass.Prelude.Dict.{lookup}
use binpass.Text.{take, has_prefix, split}
use binpass.Plugin.Manifest.{Capabilities, Manifest}
use binpass.Plugin.Glob.{any_depth, match_path, match_any, match_segments, split_path}
use binpass.Plugin.Glob.Laws.{match_segments-Implies, split_path-append}
use binpass.Plugin.Grant.{
  Grant, Lock, missing, valid, trim_suffix, has_path_prefix, subsumes, below, pattern_covered,
  covers, covers_hosts, widens, check, check_grant,
}

take-drop : (n : ℕ) (s : Bytes) → take n s ++ drop n s ≡ s
unfolding take
take-drop zero s = refl
take-drop (suc n) [] = refl
take-drop (suc n) (c ∷ s) = ap (◌∷◌ c) (take-drop n s)

has_prefix-split : (s p : Bytes) → has_prefix s p ≡ true → s ≡ p ++ drop (length p) s
unfolding has_prefix
has_prefix-split s [] h = refl
has_prefix-split [] (c ∷ p) h = ground arith
has_prefix-split (d ∷ s) (c ∷ p) h = ground (arith, has_prefix-split s p)

valid-missing : valid ≢ missing
valid-missing h = cc

-- All that a pattern covers is covered by another one.
abbrev pub Within : Bytes → Bytes → Type 0
Within b a = (name : Bytes) → match_path b name ≡ true → match_path a name ≡ true

everything : (name : Bytes) → match_path any_depth name ≡ true
unfolding match_path split_path bytes_eq split
everything name = refl

deep_split : (rest : Bytes) → split_path (rest ++ codes "/**") ≡ split_path rest ++ any_depth ∷ []
unfolding split_path bytes_eq split
deep_split rest = split_path-append rest any_depth

match_path-segments :
    (pattern name : Bytes)
    → match_path pattern name ≡ true
    → match_segments (split_path pattern) (split_path name) ≡ true
unfolding match_path
match_path-segments pattern name h = ground arith

match_path_nonempty :
    (p : Bytes) (c : ℕ) (q name : Bytes)
    → match_path (p ++ c ∷ q) name ≡ match_segments (split_path (p ++ c ∷ q)) (split_path name)
unfolding match_path
match_path_nonempty [] c q name = ground arith
match_path_nonempty (d ∷ p) c q name = ground arith

deep_covers :
    (rest : Bytes) (t : List Bytes) (name : Bytes)
    → match_segments (split_path rest ++ t) (split_path name) ≡ true
    → match_path (rest ++ codes "/**") name ≡ true
deep_covers rest t name h =
    match_path_nonempty rest b'/' any_depth name
    ∙ ap (λ p. match_segments p (split_path name)) (deep_split rest)
    ∙ match_segments-Implies (split_path rest) t (split_path name) h

trim_suffix-eq : (a suffix rest : Bytes) → trim_suffix a suffix ≡ some rest → a ≡ rest ++ suffix
unfolding trim_suffix
trim_suffix-eq a suffix rest h = ground (arith, take-drop (length a - length suffix) a)

below_path :
    (rest b name : Bytes)
    → has_path_prefix b rest ≡ true
    → match_path b name ≡ true
    → match_path (rest ++ codes "/**") name ≡ true
unfolding has_path_prefix
below_path rest b name h m =
    let tail = drop (length (rest ++ b'/' ∷ [])) b in
    let whole = has_prefix-split b (rest ++ b'/' ∷ []) h ∙ append_assoc rest (b'/' ∷ []) tail in
    deep_covers rest (split_path tail) name (
      ap (λ p. match_segments p (split_path name))
        (sym (ap split_path whole ∙ split_path-append rest tail))
      ∙ match_path-segments b name m)

same_path :
    (rest b name : Bytes)
    → b ≡ rest
    → match_path b name ≡ true
    → match_path (rest ++ codes "/**") name ≡ true
same_path rest b name e m = deep_covers rest [] name (
    ap (λ p. match_segments p (split_path name))
      (append-nil (split_path rest) ∙ ap split_path (sym e))
    ∙ match_path-segments b name m)

-- A pattern that another one subsumes covers no more.
pub subsumes-Within : (a b : Bytes) → subsumes a b ≡ true → Within b a
unfolding subsumes below
subsumes-Within a b h name m = elim (bytes_eq.dec a any_depth) [
  | yes all ↦ ap (λ p. match_path p name) all ∙ everything name
  | no some_path ↦ elim (Option-cases (trim_suffix a (codes "/**"))) [
    | inl none_left ↦ absurd (ground arith)
    | inr (rest, e) ↦
        ap (λ p. match_path p name) (trim_suffix-eq a (codes "/**") rest e)
        ∙ elim (Bool-cases (has_path_prefix b rest)) [
          | inl under ↦ below_path rest b name under m
          | inr not_under ↦ same_path rest b name (ground arith) m
        ]
  ]
]

pattern_covered-match_any :
    (granted : List Bytes) (want name : Bytes)
    → pattern_covered granted want ≡ true
    → match_path want name ≡ true
    → match_any granted name ≡ true
unfolding pattern_covered match_any
pattern_covered-match_any [] want name h m = ground arith
pattern_covered-match_any (a ∷ granted) want name h m = ground (
  arith,
  λ (e : subsumes a want ≡ true). subsumes-Within a want e name m,
  pattern_covered-match_any granted want name,
)

pub covers-match_any :
    (granted want : List Bytes) (name : Bytes)
    → covers granted want ≡ true
    → match_any want name ≡ true
    → match_any granted name ≡ true
unfolding covers match_any
covers-match_any granted [] name h m = ground arith
covers-match_any granted (w ∷ want) name h m =
    ground (arith, pattern_covered-match_any granted w name, covers-match_any granted want name)

contains-covers_hosts :
    (granted want : List Bytes) (x : Bytes)
    → covers_hosts granted want ≡ true
    → contains want x ≡ true
    → (contains granted x || contains granted (codes "*")) ≡ true
unfolding covers_hosts
contains-covers_hosts granted [] x h m = ground arith
contains-covers_hosts granted (w ∷ want) x h m =
    ground (arith, contains-covers_hosts granted want x)

pub covers_hosts-within :
    (granted want : List Bytes) (host : Bytes)
    → covers_hosts granted want ≡ true
    → covers_hosts want (host ∷ []) ≡ true
    → covers_hosts granted (host ∷ []) ≡ true
unfolding covers_hosts
covers_hosts-within granted want host h m = elim (Bool-cases (contains want host)) [
  | inl listed ↦ rw (contains-covers_hosts granted want host h listed) refl
  | inr unlisted ↦ ground (arith, contains-covers_hosts granted want (codes "*") h (ground arith))
]

-- What was approved on each count, where the manifest does not ask for more.
pub record Covered (granted want : Capabilities) : Type 0 where
  pub decrypts : want.decrypt ≡ true → granted.decrypt ≡ true
  pub reads : covers granted.read_paths want.read_paths ≡ true
  pub writes : covers granted.write_paths want.write_paths ≡ true
  pub reaches : covers_hosts granted.network want.network ≡ true
  pub runs : covers_hosts granted.exec want.exec ≡ true

not_widens-Covered :
    (granted want : Capabilities) → widens granted want ≡ false → Covered granted want
unfolding widens
not_widens-Covered granted want h = record {
  decrypts = λ d. ground arith;
  reads = ground arith;
  writes = ground arith;
  reaches = ground arith;
  runs = ground arith;
}

pub check-Covered :
    (l : Lock) (m : Manifest) (digest : Bytes)
    → check l m digest ≡ valid
    → (g : Grant) × (lookup m.name l ≡ some g)
      × (g.digest ≡ digest)
      × Covered g.capabilities m.capabilities
unfolding check check_grant
check-Covered l m digest h = elim (Option-cases (lookup m.name l)) [
  | inl absent ↦ absurd (valid-missing (sym h ∙ rw absent refl))
  | inr (g, found) ↦
      (g, found, ground arith, not_widens-Covered g.capabilities m.capabilities (ground arith))
]
