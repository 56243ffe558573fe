-- ===== src/Importer/Segments.antt =====
-- pkg/importer/path.go: the parts of a derived path have no slash.
use binpass.Prelude.{
  ℕ, zero, suc, Bool, true, false, List, [], ◌∷◌, ◌++◌, Bytes, codes, nat_eqb, length, drop, ◌≢◌,
  inl, inr, arith, Bool-cases, ◌&&◌,
}
use mathlib.Core.List.{reverse, reverse_aux}
use binpass.Text.{leading, spaces, trim_front, trim_space, has_prefix, backwards}
use binpass.Text.Laws.{Lacks}
use binpass.Paths.Laws.{Slashless, split-Slashless}
use binpass.Importer.{
  sanitized, collapsed, collapse_whitespace, collapse_dots, segments_of, split_path, respaced,
  behind,
}

Lacks-drop : (b n : ℕ) (s : Bytes) → Lacks b s → Lacks b (drop n s)
Lacks-drop b zero s u = u
Lacks-drop b (suc n) [] u = tt
Lacks-drop b (suc n) (c ∷ s) (ne, u) = Lacks-drop b n s u

Lacks-reverse_aux : (b : ℕ) (s r : Bytes) → Lacks b s → Lacks b r → Lacks b (reverse_aux s r)
Lacks-reverse_aux b [] r u v = v
Lacks-reverse_aux b (c ∷ s) r (ne, u) v = Lacks-reverse_aux b s (c ∷ r) u (ne, v)

Lacks-reverse : (b : ℕ) (s : Bytes) → Lacks b s → Lacks b (reverse s)
Lacks-reverse b s u = Lacks-reverse_aux b s [] u tt

trim_front-Lacks :
    (b fuel : ℕ) (ps : List Bytes) (s : Bytes) → Lacks b s → Lacks b (trim_front fuel ps s)
unfolding trim_front
trim_front-Lacks b zero ps s u = u
trim_front-Lacks b (suc fuel) ps s u = elim (Bool-cases (nat_eqb (leading ps s) 0)) [
  | inl done ↦ rw done u
  | inr more ↦
      rw more (trim_front-Lacks b fuel ps (drop (leading ps s) s) (Lacks-drop b (leading ps s) s u))
]

trim_space-Lacks : (b : ℕ) (s : Bytes) → Lacks b s → Lacks b (trim_space s)
unfolding trim_space
trim_space-Lacks b s u =
    let front = trim_front (length s) spaces s in
    let v : Lacks b front = trim_front-Lacks b (length s) spaces s u in
    Lacks-reverse b _ (
      trim_front-Lacks b (length front) (backwards spaces) (reverse front)
        (Lacks-reverse b front v))

sanitized-Lacks : (s : Bytes) → Lacks b'/' s → Lacks b'/' (sanitized s)
unfolding sanitized
sanitized-Lacks [] u = tt
sanitized-Lacks (c ∷ s) (ne, u) = (ground arith, sanitized-Lacks s u)

respaced-Lacks :
    (n : ℕ) (after : Bool) (c : ℕ) (rest : Bytes)
    → c ≢ b'/'
    → Lacks b'/' rest
    → Lacks b'/' (respaced n after c rest)
respaced-Lacks zero after c rest ne u = (ne, u)
respaced-Lacks (suc n) true c rest ne u = u
respaced-Lacks (suc n) false c rest ne u = (omega arith, u)

behind-Lacks : (n : ℕ) (s : Bytes) → Lacks b'/' s → Lacks b'/' (behind n s)
behind-Lacks zero s u = u
behind-Lacks (suc n) s u = Lacks-drop b'/' n s u

collapsed-Lacks :
    (fuel : ℕ) (after : Bool) (s : Bytes) → Lacks b'/' s → Lacks b'/' (collapsed fuel after s)
unfolding collapsed
collapsed-Lacks zero after s u = tt
collapsed-Lacks (suc fuel) after [] u = tt
collapsed-Lacks (suc fuel) after (c ∷ s) (ne, u) =
    let n = leading spaces (c ∷ s) in
    respaced-Lacks n after c _ ne (collapsed-Lacks fuel _ (behind n s) (behind-Lacks n s u))

collapse_dots-Lacks : (s : Bytes) → Lacks b'/' s → Lacks b'/' (collapse_dots s)
unfolding collapse_dots
collapse_dots-Lacks [] u = tt
collapse_dots-Lacks (c ∷ s) (ne, u) =
    elim (Bool-cases (nat_eqb c b'.' && has_prefix s (codes "."))) [
      | inl again ↦ rw again (collapse_dots-Lacks s u)
      | inr first ↦ rw first (ne, collapse_dots-Lacks s u)
    ]

-- What a segment becomes has no slash.
pub part-Lacks :
    (s : Bytes) → Lacks b'/' s → Lacks b'/' (collapse_dots (collapse_whitespace (sanitized s)))
unfolding collapse_whitespace
part-Lacks s u =
    let t = sanitized s in
    collapse_dots-Lacks (collapse_whitespace t) (
      trim_space-Lacks b'/' (collapsed (length t) false t)
        (collapsed-Lacks (length t) false t (sanitized-Lacks s u)))

segments_of-Slashless : (s : Bytes) → Slashless (segments_of s)
unfolding segments_of
segments_of-Slashless [] = tt
segments_of-Slashless (c ∷ s) = split-Slashless (c ∷ s)

append-Slashless : (xs ys : List Bytes) → Slashless xs → Slashless ys → Slashless (xs ++ ys)
append-Slashless [] ys u v = v
append-Slashless (x ∷ xs) ys (h, u) v = (h, append-Slashless xs ys u v)

pub split_path-Slashless : (group title : Bytes) → Slashless (split_path group title)
unfolding split_path
split_path-Slashless group title =
    append-Slashless _ _ (segments_of-Slashless (trim_space group))
      (segments_of-Slashless (trim_space title))
