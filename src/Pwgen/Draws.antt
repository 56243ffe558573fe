-- ===== src/Pwgen/Draws.antt =====
-- Generate of pkg/pwgen/pwgen.go: what a generated password is made of.
use binpass.Prelude.{
  ℕ, zero, suc, ◌<◌, true, [], ◌∷◌, some, bytes_eq, nat_eq, length, contains, ok, pos, ◌≡◌, refl,
  ap, arith, All,
}
use binpass.Pwgen.{Runes, Random, get_elem?, draw_from, generate}

-- The source always gives an index below the bound.
abbrev pub IsRandom : Random → Type 0
IsRandom random = (n size : ℕ) → 0 < size → (i : ℕ) × (random n size ≡ some i) × (i < size)

get_elem?-lt :
    (s : Runes) (i : ℕ) → i < length s → (c : ℕ) × (get_elem? s i ≡ some c) × (contains s c ≡ true)
unfolding get_elem?
get_elem?-lt [] i h = absurd (omega arith)
get_elem?-lt (c ∷ s) zero h = (c, refl, ground arith)
get_elem?-lt (c ∷ s) (suc i) h =
    let (d, at, has) = get_elem?-lt s i (omega arith) in (d, at, ground arith)

draw_from-ok :
    (random : Random) (n : ℕ) (alphabet : Runes)
    → IsRandom random
    → 0 < length alphabet
    → (word : Runes) × (draw_from random n alphabet ≡ ok word)
      × (length word ≡ n)
      × All (λ c. contains alphabet c ≡ true) word
unfolding draw_from
draw_from-ok random zero alphabet source some_runes = ([], refl, refl, tt)
draw_from-ok random (suc n) alphabet source some_runes =
    let (i, drawn, below) = source n (length alphabet) some_runes in
    let (c, at, has) = get_elem?-lt alphabet i below in
    let (word, rest, long, all) = draw_from-ok random n alphabet source some_runes in
    (c ∷ word, rw drawn (rw at (rw rest refl)), ap suc long, (has, all))

-- Over a random source that keeps within its bound, a password of a positive length is always
-- generated from a set that is not empty: it has that length, and only runes of the set.
pub generate_lem :
    (random : Random) (n c : ℕ) (alphabet : Runes)
    → IsRandom random
    → (word : Runes) × (generate random (pos (suc n)) (c ∷ alphabet) ≡ ok word)
      × (length word ≡ suc n)
      × All (λ x. contains (c ∷ alphabet) x ≡ true) word
unfolding generate
generate_lem random n c alphabet source =
    draw_from-ok random (suc n) (c ∷ alphabet) source (omega arith)
