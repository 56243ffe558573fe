-- ===== src/Paths/Laws.antt =====
-- pkg/remote/remote.go and pkg/storage/fs.go: the checks on names against a walk through the tree.
use binpass.Prelude.{
  ℕ, zero, suc, Bool, true, false, not, ◌||◌, List, [], ◌∷◌, ◌++◌, none, some, Bytes, codes,
  nat_eqb, ◌==◌, bytes_eq, if◌then◌else◌, ◌≡◌, ◌≢◌, inl, inr, refl, ◌∙◌, arith, Bool-cases, All,
  length, append-nil,
}
use binpass.Text.{has_prefix, split, trim_prefix, trim_space, onto_first}
use binpass.Text.Laws.{Lacks}
use binpass.Paths.{
  dot_dot, back, clean_step, clean_parts, joined_onto, cleaned, clean, escapes, with_slashes,
  check_path, rel_of, rel,
}

-- A walk down the components of a path, from a directory `depth` levels below the root: it stays
-- below the root if it never takes a `..` at the root.
pub stays : ℕ → List Bytes → Bool
stays depth [] = true
stays zero (c ∷ cs) =
    let rest = stays (suc zero) cs in
    let here = stays zero cs in
    if c == codes "" || c == codes "." then here else if c == dot_dot then false else rest
stays (suc depth) (c ∷ cs) =
    let rest = stays (suc (suc depth)) cs in
    let up = stays depth cs in
    let here = stays (suc depth) cs in
    if c == codes "" || c == codes "." then here else if c == dot_dot then up else rest

-- The kept components, the last one first, once the walk has left the root: a `..` at the bottom.
outside : List Bytes → Bool
outside [] = false
outside (c ∷ []) = c == dot_dot
outside (c ∷ d ∷ kept) = outside (d ∷ kept)

-- Components below the root.
abbrev Inside : List Bytes → Type 0
Inside = All (λ c. c ≢ dot_dot)

abbrev pub Slashless : List Bytes → Type 0
Slashless = All (Lacks b'/')

Inside-outside : (kept : List Bytes) → Inside kept → outside kept ≡ false
unfolding outside
Inside-outside [] h = refl
Inside-outside (c ∷ []) (ne, _) = ground arith
Inside-outside (c ∷ d ∷ kept) (_, h) = Inside-outside (d ∷ kept) h

clean_step-outside :
    (kept : List Bytes) (c : Bytes) → outside kept ≡ true → outside (clean_step kept c) ≡ true
unfolding outside clean_step back
clean_step-outside [] c o = cc
clean_step-outside (d ∷ []) c o = ground arith
clean_step-outside (d ∷ e ∷ kept) c o = ground arith

clean_parts-outside :
    (kept cs : List Bytes) → outside kept ≡ true → outside (clean_parts kept cs) ≡ true
unfolding clean_parts
clean_parts-outside kept [] o = o
clean_parts-outside kept (c ∷ cs) o =
    clean_parts-outside (clean_step kept c) cs (clean_step-outside kept c o)

abbrev pub idle : Bytes → Bool
idle c = c == codes "" || c == codes "."

clean_step-idle : (kept : List Bytes) (c : Bytes) → idle c ≡ true → clean_step kept c ≡ kept
unfolding clean_step
clean_step-idle kept c e = ground arith

clean_step_up :
    (kept : List Bytes) (c : Bytes) → idle c ≡ false → c ≡ dot_dot → clean_step kept c ≡ back kept
unfolding clean_step
clean_step_up kept c e p = ground arith

pub clean_step_down :
    (kept : List Bytes) (c : Bytes) → idle c ≡ false → c ≢ dot_dot → clean_step kept c ≡ c ∷ kept
unfolding clean_step
clean_step_down kept c e n = ground arith

root_outside : (cs : List Bytes) → outside (clean_parts (back []) cs) ≡ true
root_outside cs = clean_parts-outside (back []) cs (unfold outside back bytes_eq in refl)

back_inside : (d : Bytes) (kept : List Bytes) → d ≢ dot_dot → back (d ∷ kept) ≡ kept
unfolding back
back_inside d kept n = ground arith

-- The walk leaves the root exactly if the cleaned components do.
stays-outside :
    (kept cs : List Bytes)
    → Inside kept
    → stays (length kept) cs ≡ not (outside (clean_parts kept cs))
unfolding stays clean_parts
stays-outside [] [] h = unfold outside in refl
stays-outside (d ∷ kept) [] h = rw (Inside-outside (d ∷ kept) h)
stays-outside [] (c ∷ cs) h = elim (Bool-cases (idle c)) [
  | inl e ↦ ground (arith, clean_step-idle [] c e, stays-outside [] cs tt)
  | inr e ↦ elim (bytes_eq.dec c dot_dot) [
    | yes p ↦ ground (arith, clean_step_up [] c e p, root_outside cs)
    | no n ↦ ground (arith, clean_step_down [] c e n, stays-outside (c ∷ []) cs (n, tt))
  ]
]
stays-outside (d ∷ kept) (c ∷ cs) (ne, h) = elim (Bool-cases (idle c)) [
  | inl e ↦ ground (arith, clean_step-idle (d ∷ kept) c e, stays-outside (d ∷ kept) cs (ne, h))
  | inr e ↦ elim (bytes_eq.dec c dot_dot) [
    | yes p ↦
        ground
          (arith, clean_step_up (d ∷ kept) c e p, back_inside d kept ne, stays-outside kept cs h)
    | no n ↦
        ground
          (arith, clean_step_down (d ∷ kept) c e n, stays-outside (c ∷ d ∷ kept) cs (n, (ne, h)))
  ]
]

escapes_alone : (c : Bytes) → Lacks b'/' c → escapes c ≡ (c == dot_dot)
unfolding escapes
escapes_alone [] h = ground arith
escapes_alone (x ∷ []) h = ground arith
escapes_alone (x ∷ y ∷ []) h = ground arith
escapes_alone (x ∷ y ∷ z ∷ c) (_, (_, (ne, h))) = ground arith

escapes_slash : (c t : Bytes) → Lacks b'/' c → escapes (c ++ b'/' ∷ t) ≡ (c == dot_dot)
unfolding escapes
escapes_slash [] t h = ground arith
escapes_slash (x ∷ []) t h = ground arith
escapes_slash (x ∷ y ∷ []) t h = ground arith
escapes_slash (x ∷ y ∷ z ∷ c) t (_, (_, (ne, h))) = ground arith

escapes_joined :
    (c : Bytes) (kept : List Bytes) (t : Bytes)
    → Slashless (c ∷ kept)
    → escapes (joined_onto (c ∷ kept) (b'/' ∷ t)) ≡ outside (c ∷ kept)
unfolding joined_onto outside
escapes_joined c [] t (h, _) = escapes_slash c t h
escapes_joined c (d ∷ kept) t (_, h) = escapes_joined d kept (c ++ b'/' ∷ t) h

escapes-cleaned : (kept : List Bytes) → Slashless kept → escapes (cleaned kept) ≡ outside kept
unfolding cleaned joined_onto outside
escapes-cleaned [] h = unfold escapes bytes_eq in refl
escapes-cleaned (c ∷ []) (h, _) = rw append-nil (escapes_alone c h)
escapes-cleaned (c ∷ d ∷ kept) (_, h) = rw append-nil (escapes_joined d kept c h)

onto_first-Slashless :
    (c : ℕ) (ls : List Bytes) → c ≢ b'/' → Slashless ls → Slashless (onto_first c ls)
onto_first-Slashless c [] n h = ((n, tt), tt)
onto_first-Slashless c (l ∷ ls) n (h, hs) = ((n, h), hs)

pub split-Slashless : (p : Bytes) → Slashless (split b'/' p)
unfolding split
split-Slashless [] = (tt, tt)
split-Slashless (c ∷ p) = elim (Bool-cases (nat_eqb c b'/')) [
  | inl e ↦ rw e (tt, split-Slashless p)
  | inr e ↦ rw e (onto_first-Slashless c (split b'/' p) (ground arith) (split-Slashless p))
]

back-Slashless : (kept : List Bytes) → Slashless kept → Slashless (back kept)
unfolding back
back-Slashless [] h = (omega arith, tt)
back-Slashless (c ∷ kept) (h, hs) = elim (Bool-cases (c == dot_dot)) [
  | inl e ↦ rw e (omega arith, (h, hs))
  | inr e ↦ rw e hs
]

clean_step-Slashless :
    (kept : List Bytes) (c : Bytes) → Slashless kept → Lacks b'/' c → Slashless (clean_step kept c)
clean_step-Slashless kept c h k = elim (Bool-cases (idle c)) [
  | inl e ↦ rw (clean_step-idle kept c e) h
  | inr e ↦ elim (bytes_eq.dec c dot_dot) [
    | yes p ↦ rw (clean_step_up kept c e p) (back-Slashless kept h)
    | no n ↦ rw (clean_step_down kept c e n) (k, h)
  ]
]

clean_parts-Slashless :
    (kept cs : List Bytes) → Slashless kept → Slashless cs → Slashless (clean_parts kept cs)
unfolding clean_parts
clean_parts-Slashless kept [] h k = h
clean_parts-Slashless kept (c ∷ cs) h (k, ks) =
    clean_parts-Slashless (clean_step kept c) cs (clean_step-Slashless kept c h k) ks

-- Cleaning a path shows exactly whether the walk along its components leaves the root.
pub escapes-clean : (p : Bytes) → escapes (clean p) ≡ not (stays 0 (split b'/' p))
unfolding clean
escapes-clean p =
    escapes-cleaned (clean_parts [] (split b'/' p))
      (clean_parts-Slashless [] _ tt (split-Slashless p))
    ∙ ground (arith, stays-outside [] (split b'/' p) tt)

check_path-parts :
    (p : Bytes)
    → check_path p ≡ true
    → (escapes (clean p) ≡ false)
      × (escapes (clean (with_slashes p)) ≡ false)
      × (p ≢ [])
      × (has_prefix p (b'/' ∷ []) ≡ false)
      × (has_prefix p (b'\\' ∷ []) ≡ false)
unfolding check_path
check_path-parts [] h = cc
check_path-parts (c ∷ p) h = ground arith

-- A path that passes the check of the transports stays below the store as it is walked from the
-- store's root, under either reading of a backslash, and names no other root: it is not empty and
-- begins with no separator.
pub check_path-stays :
    (p : Bytes)
    → check_path p ≡ true
    → (stays 0 (split b'/' p) ≡ true)
      × (stays 0 (split b'/' (with_slashes p)) ≡ true)
      × (p ≢ [])
      × (has_prefix p (b'/' ∷ []) ≡ false)
      × (has_prefix p (b'\\' ∷ []) ≡ false)
check_path-stays p h =
    let facts = check_path-parts p h in
    (
      ground (arith, escapes-clean p),
      ground (arith, escapes-clean (with_slashes p)),
      facts.2,
      facts.3,
      facts.4,
    )

rel_of_lem :
    (n : Bytes)
    → rel_of n ≡ (
        if has_prefix n (codes "/")
        then none
        else if stays 0 (split b'/' n)
        then some (clean n)
        else none)
unfolding rel_of has_prefix
rel_of_lem [] = unfold stays split clean bytes_eq in refl
rel_of_lem (c ∷ n) = ground (arith, escapes-clean (c ∷ n))

-- A store name, without the spaces around it and one slash in front, is refused exactly if it
-- still begins with a slash or the walk along its components leaves the store, and is cleaned
-- otherwise.
pub rel_lem :
    (name : Bytes)
    → rel name ≡ (
        if has_prefix (trim_prefix (trim_space name) (codes "/")) (codes "/")
        then none
        else if stays 0 (split b'/' (trim_prefix (trim_space name) (codes "/")))
        then some (clean (trim_prefix (trim_space name) (codes "/")))
        else none)
unfolding rel
rel_lem name = rel_of_lem (trim_prefix (trim_space name) (codes "/"))
