-- ===== src/Importer/Dots.antt =====
-- pkg/importer/path.go: a derived path has no two dots in a row.
use binpass.Prelude.{
  ℕ, Bool, false, ◌||◌, ◌&&◌, [], ◌∷◌, ◌++◌, Bytes, codes, nat_eqb, ◌≡◌, inl, inr, arith,
  Option-cases, refl,
}
use binpass.Text.{contains_text, has_prefix, index, trim_prefix}
use binpass.Importer.{collapse_dots}

abbrev pub dotted : Bytes → Bool
dotted s = contains_text s (codes "..")

dotted_nil : dotted [] ≡ false
unfolding contains_text index has_prefix
dotted_nil = refl

pub dotted_cons :
    (c : ℕ) (s : Bytes) → dotted (c ∷ s) ≡ (nat_eqb c b'.' && has_prefix s (codes ".") || dotted s)
unfolding contains_text index has_prefix
dotted_cons c s = elim (Option-cases (index s (codes ".."))) [
  | inl out ↦ ground (arith, out)
  | inr (i, there) ↦ ground (arith, there)
]

collapse_dots_head :
    (s : Bytes) → has_prefix (collapse_dots s) (codes ".") ≡ has_prefix s (codes ".")
unfolding collapse_dots has_prefix
collapse_dots_head [] = refl
collapse_dots_head (c ∷ s) = ground (arith, collapse_dots_head s)

pub dotted-collapse_dots : (s : Bytes) → dotted (collapse_dots s) ≡ false
unfolding collapse_dots
dotted-collapse_dots [] = dotted_nil
dotted-collapse_dots (c ∷ s) =
    ground (arith, dotted-collapse_dots s, collapse_dots_head s, dotted_cons c (collapse_dots s))

head_slash : (p s : Bytes) → has_prefix (p ++ b'/' ∷ s) (codes ".") ≡ has_prefix p (codes ".")
unfolding has_prefix
head_slash [] s = refl
head_slash (c ∷ p) s = refl

-- A slash parts two texts without such dots.
pub dotted-slash : (p s : Bytes) → dotted (p ++ b'/' ∷ s) ≡ (dotted p || dotted s)
dotted-slash [] s = ground (arith, dotted_nil, dotted_cons b'/' s)
dotted-slash (c ∷ p) s =
    ground (arith, dotted-slash p s, head_slash p s, dotted_cons c p, dotted_cons c (p ++ b'/' ∷ s))

-- Nothing is trimmed from a text without such dots.
pub undotted_trim :
    (s : Bytes) → dotted s ≡ false → trim_prefix (trim_prefix s (codes "../")) (codes "..") ≡ s
unfolding trim_prefix has_prefix
undotted_trim [] h = refl
undotted_trim (c ∷ []) h = ground arith
undotted_trim (c ∷ d ∷ s) h = ground (arith, dotted_cons c (d ∷ s), h)
