-- ===== src/Plugin/Glob/Laws.antt =====
-- pkg/plugin/glob.go: a pattern that ends in two stars covers all that lies below it.
use binpass.Prelude.{
  ℕ, nat_eqb, Bool, true, ◌||◌, List, [], ◌∷◌, ◌++◌, Bytes, ◌==◌, bytes_eq, ◌≡◌, inl, inr, refl, ap,
  ◌∙◌, arith, Bool-cases,
}
use binpass.Text.{split}
use binpass.Plugin.Glob.{
  any_depth, is_last, some_end, first_segment, match_segments, nonempty_parts, split_path,
}

-- A test that implies another.
abbrev Implies : (List Bytes → Bool) → (List Bytes → Bool) → Type 0
Implies f g = (name : List Bytes) → f name ≡ true → g name ≡ true

some_end-Implies : (f g : List Bytes → Bool) → Implies f g → Implies (some_end f) (some_end g)
unfolding some_end
some_end-Implies f g h [] e = h [] e
some_end-Implies f g h (s ∷ name) e = ground (arith, h (s ∷ name), some_end-Implies f g h name)

first_segment-Implies :
    (p : Bytes) (f g : List Bytes → Bool)
    → Implies f g
    → Implies (first_segment p f) (first_segment p g)
unfolding first_segment
first_segment-Implies p f g h [] e = e
first_segment-Implies p f g h (s ∷ name) e = ground (arith, h name)

some_end_all :
    (f : List Bytes → Bool)
    → ((name : List Bytes) → f name ≡ true)
    → (name : List Bytes) → some_end f name ≡ true
unfolding some_end
some_end_all f h [] = h []
some_end_all f h (s ∷ name) = ground (arith, h (s ∷ name))

abbrev deep : List Bytes
deep = any_depth ∷ []

pub match-deep : (name : List Bytes) → match_segments deep name ≡ true
unfolding match_segments
match-deep name = ground arith

ends_below :
    (p t : List Bytes)
    → Implies (match_segments (p ++ t)) (match_segments (p ++ any_depth ∷ []))
    → (name : List Bytes) → (is_last (p ++ t) || some_end (match_segments (p ++ t)) name) ≡ true
    → (is_last (p ++ any_depth ∷ []) || some_end (match_segments (p ++ any_depth ∷ [])) name) ≡ true
ends_below [] t h name e = some_end_all (match_segments deep) match-deep name
ends_below (q ∷ p) t h name e =
    some_end-Implies (match_segments (q ∷ p ++ t)) (match_segments (q ∷ p ++ any_depth ∷ [])) h name
      e

-- What a pattern covers is covered by its first part with two stars behind.
pub match_segments-Implies :
    (p t : List Bytes) → Implies (match_segments (p ++ t)) (match_segments (p ++ any_depth ∷ []))
unfolding match_segments
match_segments-Implies [] t name e = match-deep name
match_segments-Implies (q ∷ p) t name e = elim (Bool-cases (q == any_depth)) [
  | inl stars ↦ rw stars (ends_below p t (match_segments-Implies p t) name (rw stars at e))
  | inr plain ↦ rw plain (
      first_segment-Implies q (match_segments (p ++ t)) (match_segments (p ++ any_depth ∷ []))
        (match_segments-Implies p t) name (rw plain at e))
]

-- Segments without the empty ones, of a path in two parts.
nonempty_parts-append :
    (a b : List Bytes) → nonempty_parts (a ++ b) ≡ nonempty_parts a ++ nonempty_parts b
unfolding nonempty_parts
nonempty_parts-append [] b = refl
nonempty_parts-append (s ∷ a) b = ground (arith, nonempty_parts-append a b)

split_some : (b : ℕ) (p : Bytes) → (l : Bytes) × (ls : List Bytes) × (split b p ≡ l ∷ ls)
unfolding split
split_some b [] = ([], [], refl)
split_some b (c ∷ p) =
    let (l, ls, e) = split_some b p in
    elim (Bool-cases (nat_eqb c b)) [
      | inl same ↦ ([], split b p, rw same refl)
      | inr other ↦ (c ∷ l, ls, rw (other, e) refl)
    ]

split_slash : (p q : Bytes) → split b'/' (p ++ b'/' ∷ q) ≡ split b'/' p ++ split b'/' q
unfolding split
split_slash [] q = ground arith
split_slash (c ∷ p) q = let (l, ls, e) = split_some b'/' p in ground (arith, split_slash p q, e)

pub split_path-append : (p q : Bytes) → split_path (p ++ b'/' ∷ q) ≡ split_path p ++ split_path q
unfolding split_path
split_path-append p q =
    ap nonempty_parts (split_slash p q) ∙ nonempty_parts-append (split b'/' p) (split b'/' q)
