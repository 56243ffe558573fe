-- ===== src/Pwgen/Set.antt =====
-- ExpandCharacterSet of pkg/pwgen/charset.go: the loop ends, and the set has no rune twice.
use binpass.Prelude.{
  ℕ, zero, suc, ◌≤◌, ◌<◌, false, not, ◌&&◌, [], ◌∷◌, ◌++◌, Option, none, some, nat_eqb, bytes_eq,
  nat_eq, length, contains, ◌≡◌, refl, sym, ap, ◌∙◌, subst, arith, Bool-cases, Option-cases, inl,
  inr, some_inj,
}
use binpass.Prelude.Dict.{lookup}
use binpass.Pwgen.{
  Runes, letters, closed_class, expansion, deduped, class_here, Found, or_after, find_class,
  posix_classes, in_front, expand_loop, unseen, dedupe, expand_character_set,
}

length-letters : (s : Runes) → length ((letters s).1) ≤ length s
unfolding letters
length-letters [] = omega arith
length-letters (c ∷ s) = ground (arith, length-letters s)

closed_class-length :
    (p : Runes × Runes) (name rest : Runes)
    → closed_class p ≡ some (name, rest)
    → length rest < length p.1
closed_class-length (c ∷ n, x ∷ y ∷ s) name rest h = ground arith
closed_class-length (c ∷ n, x ∷ []) name rest h = cc
closed_class-length (c ∷ n, []) name rest h = cc
closed_class-length ([], s) name rest h = cc

class_here-length :
    (s name rest : Runes) → class_here s ≡ some (name, rest) → length rest < length s
unfolding class_here
class_here-length [] name rest h = cc
class_here-length (x ∷ []) name rest h = cc
class_here-length (x ∷ y ∷ s) name rest h = elim (Bool-cases (nat_eqb x b'[' && nat_eqb y b':')) [
  | inl opened ↦
      omega (arith, closed_class-length (letters s) name rest (rw opened at h), length-letters s)
  | inr plain ↦ (let e = rw plain at h in cc)
]

or_after-length :
    (c : ℕ) (s : Runes) (here : Option (Runes × Runes)) (later : Option Found) (f : Found)
    → ((name rest : Runes) → here ≡ some (name, rest) → length rest < suc (length s))
    → ((g : Found) → later ≡ some g → length g.rest < length s)
    → or_after c here later ≡ some f
    → length f.rest < suc (length s)
or_after-length c s (some (name, rest)) later f a b h =
    let short = a name rest refl in
    let e : f.rest ≡ rest = sym (ap (λ x. x.rest) (some_inj h)) in
    subst (λ r. length r < suc (length s)) (sym e) short
or_after-length c s none none f a b h = cc
or_after-length c s none (some g) f a b h =
    let short = b g refl in
    let e : f.rest ≡ g.rest = sym (ap (λ x. x.rest) (some_inj h)) in
    subst (λ r. length r < suc (length s)) (sym e) (omega arith)

find_class-length : (s : Runes) (f : Found) → find_class s ≡ some f → length f.rest < length s
unfolding find_class
find_class-length [] f h = cc
find_class-length (c ∷ s) f h =
    or_after-length c s (class_here (c ∷ s)) (find_class s) f (class_here-length (c ∷ s))
      (find_class-length s) h

in_front-total :
    (s : Runes) (o : Option Runes)
    → (t : Runes) × (o ≡ some t)
    → (t : Runes) × (in_front s o ≡ some t)
in_front-total s o (t, h) = (s ++ t, ap (in_front s) h)

expand_loop-some :
    (fuel : ℕ) (s : Runes) (f : Found)
    → find_class s ≡ some f
    → expand_loop (suc fuel) s
      ≡ in_front (f.before ++ expansion (lookup f.name posix_classes)) (expand_loop fuel f.rest)
unfolding expand_loop
expand_loop-some fuel s f more = rw (more, expand_loop) refl

expand_loop-none : (fuel : ℕ) (s : Runes) → find_class s ≡ none → expand_loop (suc fuel) s ≡ some s
unfolding expand_loop
expand_loop-none fuel s last = rw (last, expand_loop) refl

-- Every round takes a class off the text, so that its length is fuel enough.
expand_loop-total :
    (fuel : ℕ) (s : Runes) → length s < fuel → (t : Runes) × (expand_loop fuel s ≡ some t)
expand_loop-total zero s enough = absurd (omega arith)
expand_loop-total (suc fuel) s enough = elim (Option-cases (find_class s)) [
  | inl last ↦ (s, expand_loop-none fuel s last)
  | inr (f, more) ↦
      let (t, h) =
        in_front-total (f.before ++ expansion (lookup f.name posix_classes))
          (expand_loop fuel f.rest)
          (expand_loop-total fuel f.rest (omega (arith, find_class-length s f more))) in
      (t, expand_loop-some fuel s f more ∙ h)
]

-- More fuel than enough changes nothing.
expand_loop-same :
    (fuel more : ℕ) (s : Runes)
    → length s < fuel
    → length s < more
    → expand_loop fuel s ≡ expand_loop more s
expand_loop-same zero more s a b = absurd (omega arith)
expand_loop-same (suc fuel) zero s a b = absurd (omega arith)
expand_loop-same (suc fuel) (suc more) s a b = elim (Option-cases (find_class s)) [
  | inl last ↦ expand_loop-none fuel s last ∙ sym (expand_loop-none more s last)
  | inr (f, found) ↦
      let shorter = find_class-length s f found in
      expand_loop-some fuel s f found
      ∙ ap (in_front (f.before ++ expansion (lookup f.name posix_classes)))
          (expand_loop-same fuel more f.rest (omega arith) (omega arith))
      ∙ sym (expand_loop-some more s f found)
]

no_classes : (fuel : ℕ) → 0 < fuel → expand_loop fuel [] ≡ some []
unfolding find_class
no_classes zero h = absurd (omega arith)
no_classes (suc fuel) h = expand_loop-none fuel [] refl

-- No rune twice.
abbrev pub IsNodup : Runes → Type 0
IsNodup [] = Unit
IsNodup (c ∷ s) = (contains s c ≡ false) × IsNodup s

contains-unseen :
    (seen s : Runes) (c : ℕ) → contains (unseen seen s) c ≡ (contains s c && not (contains seen c))
unfolding unseen
contains-unseen seen [] c = refl
contains-unseen seen (d ∷ s) c = elim (Bool-cases (contains seen d)) [
  | inl old ↦ rw old (ground (arith, contains-unseen seen s c))
  | inr new ↦ rw new (ground (arith, contains-unseen (d ∷ seen) s c))
]

unseen-IsNodup : (seen s : Runes) → IsNodup (unseen seen s)
unfolding unseen
unseen-IsNodup seen [] = tt
unseen-IsNodup seen (d ∷ s) = elim (Bool-cases (contains seen d)) [
  | inl old ↦ rw old (unseen-IsNodup seen s)
  | inr new ↦ rw new (ground (arith, contains-unseen (d ∷ seen) s d), unseen-IsNodup (d ∷ seen) s)
]

-- A character set is always expanded, whatever its text: the loop needs no more rounds than the text
-- has runes, and more change nothing. The set has no rune twice, and the runes of the expanded text.
pub expand_character_set_lem :
    (spec : Runes)
    → (text : Runes) × (set : Runes) × ((fuel : ℕ)
        → length spec < fuel
        → expand_loop fuel spec ≡ some text)
      × (expand_character_set spec ≡ some set)
      × IsNodup set
      × ((c : ℕ) → contains set c ≡ contains text c)
unfolding expand_character_set dedupe
expand_character_set_lem [] = ([], [], (λ fuel h. no_classes fuel h), refl, tt, λ c. refl)
expand_character_set_lem (c ∷ spec) =
    let (text, h) = expand_loop-total (suc (length (c ∷ spec))) (c ∷ spec) (omega arith) in
    (
      text,
      unseen [] text,
      (λ fuel enough.
          expand_loop-same fuel (suc (length (c ∷ spec))) (c ∷ spec) enough (omega arith) ∙ h),
      ap deduped h,
      unseen-IsNodup [] text,
      λ x. ground (arith, contains-unseen [] text x),
    )
