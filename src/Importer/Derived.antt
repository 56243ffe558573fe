-- ===== src/Importer/Derived.antt =====
-- pkg/importer/path.go: the path that is derived from a title and a group.
use binpass.Prelude.{
  true, false, List, [], ◌∷◌, ◌++◌, Bytes, codes, bytes_eq, ◌≡◌, ◌≢◌, ◌⊎◌, inl, inr, refl, sym, ap,
  ◌∙◌, arith, All, Bool-cases, append-nil, append_assoc, contains, subst,
}
use binpass.Text.{contains_text, has_prefix, index, split, trim_prefix}
use binpass.Text.Laws.{Lacks, split-append, split_whole}
use binpass.Paths.{clean, clean_parts, cleaned, joined_onto, dot_dot}
use binpass.Paths.Laws.{Slashless, idle, clean_step_down}
use binpass.Importer.{
  behind_slashes, join, normalized_parts, split_path, sanitized, collapse_whitespace, collapse_dots,
  normalize_path, validate_path,
}
use binpass.Importer.Segments.{part-Lacks, split_path-Slashless}
use binpass.Importer.Dots.{dotted, dotted-collapse_dots, dotted-slash, undotted_trim}

-- A part that names something, and is no step up.
record IsPart (p : Bytes) : Type 0 where
  busy : idle p ≡ false
  whole : Lacks b'/' p
  undotted : dotted p ≡ false

IsPart-down : (p : Bytes) → IsPart p → p ≢ dot_dot
IsPart-down p u same =
    (let z = subst (λ q. dotted q ≡ false) same u.undotted in
      let two : dotted dot_dot ≡ true = unfold contains_text index has_prefix in refl in cc)

normalized_parts-IsPart : (ss : List Bytes) → Slashless ss → All IsPart (normalized_parts ss)
unfolding normalized_parts
normalized_parts-IsPart [] u = tt
normalized_parts-IsPart (s ∷ ss) (h, u) =
    let t = collapse_dots (collapse_whitespace (sanitized s)) in
    elim (Bool-cases (idle t)) [
      | inl skipped ↦ rw skipped (normalized_parts-IsPart ss u)
      | inr taken ↦ rw taken (
        record {
          busy = taken;
          whole = part-Lacks s h;
          undotted = dotted-collapse_dots (collapse_whitespace (sanitized s));
        },
        normalized_parts-IsPart ss u,
      )
    ]

joined_onto-append :
    (c : Bytes) (kept : List Bytes) (rest : Bytes)
    → joined_onto (c ∷ kept) rest ≡ joined_onto (c ∷ kept) [] ++ rest
unfolding joined_onto
joined_onto-append c [] rest = rw (append-nil c) refl
joined_onto-append c (d ∷ kept) rest =
    joined_onto-append d kept (b'/' ∷ (c ++ rest))
    ∙ sym (
        ap (λ x. x ++ rest) (joined_onto-append d kept (b'/' ∷ (c ++ [])))
        ∙ simp (append-nil, append_assoc))

-- Parts are kept one after the other.
cleaned-behind_slashes :
    (c : Bytes) (kept ps : List Bytes)
    → All IsPart ps
    → cleaned (clean_parts (c ∷ kept) ps) ≡ cleaned (c ∷ kept) ++ behind_slashes ps
unfolding clean_parts behind_slashes
cleaned-behind_slashes c kept [] u = sym (append-nil (cleaned (c ∷ kept)))
cleaned-behind_slashes c kept (p ∷ ps) (h, u) =
    ap (λ k. cleaned (clean_parts k ps)) (clean_step_down (c ∷ kept) p h.busy (IsPart-down p h))
    ∙ cleaned-behind_slashes p (c ∷ kept) ps u
    ∙ unfold cleaned joined_onto in
      (ap (λ x. x ++ behind_slashes ps) (joined_onto-append c kept (b'/' ∷ (p ++ [])))
        ∙ simp (append-nil, append_assoc))

split-behind_slashes :
    (p : Bytes) (ps : List Bytes)
    → All IsPart (p ∷ ps)
    → split b'/' (p ++ behind_slashes ps) ≡ p ∷ ps
unfolding behind_slashes
split-behind_slashes p [] (h, u) = rw (append-nil p) (split_whole b'/' p h.whole)
split-behind_slashes p (q ∷ qs) (h, u) =
    split-append b'/' p (q ++ behind_slashes qs) h.whole ∙ ap (◌∷◌ p) (split-behind_slashes q qs u)

join-parts :
    (p : Bytes) (ps : List Bytes)
    → All IsPart (p ∷ ps)
    → clean (p ++ behind_slashes ps) ≡ p ++ behind_slashes ps
unfolding clean
join-parts p ps (h, u) =
    ap (λ k. cleaned (clean_parts [] k)) (split-behind_slashes p ps (h, u))
    ∙ unfold clean_parts in
      (ap (λ k. cleaned (clean_parts k ps)) (clean_step_down [] p h.busy (IsPart-down p h))
        ∙ cleaned-behind_slashes p [] ps u
        ∙ unfold cleaned joined_onto in rw (append-nil p) refl)

dotted-behind_slashes :
    (p : Bytes) (ps : List Bytes) → All IsPart (p ∷ ps) → dotted (p ++ behind_slashes ps) ≡ false
unfolding behind_slashes
dotted-behind_slashes p [] (h, u) = rw (append-nil p) h.undotted
dotted-behind_slashes p (q ∷ qs) (h, u) =
    ground
      (arith, dotted-slash p (q ++ behind_slashes qs), h.undotted, dotted-behind_slashes q qs u)

nonempty_parts : (ps : List Bytes) → All IsPart ps → contains ps [] ≡ false
unfolding bytes_eq
nonempty_parts [] u = refl
nonempty_parts ([] ∷ ps) (h, u) = (let z = h.busy in cc)
nonempty_parts ((c ∷ p) ∷ ps) (h, u) = ground (arith, nonempty_parts ps u)

validate_path-parts :
    (p : Bytes) (ps : List Bytes)
    → All IsPart (p ∷ ps)
    → validate_path (p ++ behind_slashes ps) ≡ true
unfolding validate_path has_prefix bytes_eq
validate_path-parts [] ps (h, u) = (let z = h.busy in cc)
validate_path-parts (c ∷ p) ps (h, u) =
    let (ne, rest) = h.whole in
    rw
      (
        dotted-behind_slashes (c ∷ p) ps (h, u),
        split-behind_slashes (c ∷ p) ps (h, u),
        nonempty_parts ((c ∷ p) ∷ ps) (h, u),
      )
      (ground arith)

abbrev Good : Bytes → Type 0
Good t = (t ≡ []) ⊎ ((validate_path t ≡ true) × (clean t ≡ t))

join-Good :
    (ps : List Bytes)
    → All IsPart ps
    → Good (trim_prefix (trim_prefix (join ps) (codes "../")) (codes ".."))
unfolding join
join-Good [] u = inl (unfold trim_prefix has_prefix in refl)
join-Good (p ∷ ps) u =
    let t = p ++ behind_slashes ps in
    let same = join-parts p ps u in
    subst Good
      (sym (
        ap (λ k. trim_prefix (trim_prefix k (codes "../")) (codes "..")) same
        ∙ undotted_trim t (dotted-behind_slashes p ps u)))
      (inr (validate_path-parts p ps u, same))

-- The path that is derived from a title and a group is empty, or it is clean and passes the check
-- on store paths, whatever the two hold.
pub normalize_path_lem :
    (group title : Bytes)
    → (normalize_path group title ≡ [])
      ⊎ ((validate_path (normalize_path group title) ≡ true)
          × (clean (normalize_path group title) ≡ normalize_path group title))
unfolding normalize_path
normalize_path_lem group title =
    join-Good (normalized_parts (split_path group title))
      (normalized_parts-IsPart (split_path group title) (split_path-Slashless group title))
