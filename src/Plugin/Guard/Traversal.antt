-- ===== src/Plugin/Guard/Traversal.antt =====
-- pkg/plugin/guard.go, with the names of pkg/storage/fs.go: the guard sees a name as it was typed,
-- and the store reads the entry under the cleaned one.
use binpass.Prelude.{
  ==-same, ==-other, ℕ, true, false, List, [], ◌∷◌, ◌++◌, some, none, Bytes, codes, bytes_eq,
  nat_eq, if◌then◌else◌, contains, ◌≡◌, ◌≢◌, refl, ap, ◌∙◌, arith,
}
use binpass.Text.{has_prefix, split, trim_prefix, trim_space}
use binpass.Text.Laws.{Lacks, split-append, split_whole}
use binpass.Paths.{clean, escapes, clean_parts, clean_step, back, cleaned, rel, rel_of}
use binpass.Plugin.Glob.{
  any_depth, match_segment, match_segments, match_path, match_any, split_path, first_segment,
  nonempty_parts,
}
use binpass.Plugin.Glob.Laws.{split_path-append, match-deep}
use binpass.Plugin.Guard.{Guard, can_decrypt}

-- A segment that is an ordinary name.
pub record IsName (a : Bytes) : Type 0 where
  pub no_slash : Lacks b'/' a
  pub no_star : contains a b'*' ≡ false
  pub nonempty : a ≢ []
  pub no_dot : a ≢ codes "."
  pub no_dots : a ≢ codes ".."

-- The name that goes into a folder and out again.
abbrev pub around : Bytes → Bytes → Bytes
around a q = a ++ b'/' ∷ (codes ".." ++ b'/' ∷ q)

split-around :
    (a q : Bytes) → Lacks b'/' a → split b'/' (around a q) ≡ a ∷ codes ".." ∷ split b'/' q
split-around a q h =
    split-append b'/' a (codes ".." ++ b'/' ∷ q) h
    ∙ ap (◌∷◌ a) (split-append b'/' (codes "..") q (ground arith, (ground arith, tt)))

clean_parts-around :
    (a : Bytes) (p : List Bytes) → IsName a → clean_parts [] (a ∷ codes ".." ∷ p) ≡ clean_parts [] p
unfolding clean_parts clean_step back
clean_parts-around a p n = ground (arith, n.nonempty, n.no_dot, n.no_dots)

clean-around : (a q : Bytes) → IsName a → clean (around a q) ≡ clean q
unfolding clean
clean-around a q n =
    ap (λ p. cleaned (clean_parts [] p)) (split-around a q n.no_slash)
    ∙ ap cleaned (clean_parts-around a (split b'/' q) n)

split_path-name : (a : Bytes) → IsName a → split_path a ≡ a ∷ []
unfolding split_path nonempty_parts
split_path-name a n = rw (split_whole b'/' a n.no_slash) ground (arith, n.nonempty)

with_star : (a b : Bytes) → contains a b'*' ≡ false → contains b b'*' ≡ true → a ≢ b
with_star a b n h p = cc

match_segment-name : (a : Bytes) → IsName a → match_segment a a ≡ true
unfolding match_segment nat_eq
match_segment-name a n =
    rw (==-other a (codes "*") (with_star a (codes "*") n.no_star refl), n.no_star, ==-same a) refl

match_segments-name :
    (a : Bytes) (rest : List Bytes)
    → IsName a
    → match_segments (a ∷ any_depth ∷ []) (a ∷ rest) ≡ true
unfolding match_segments first_segment nat_eq
match_segments-name a rest n =
    rw (==-other a any_depth (with_star a any_depth n.no_star refl), match_segment-name a n)
      (match-deep rest)

cons_ne : (a : Bytes) (c : ℕ) (q : Bytes) → a ++ c ∷ q ≢ []
cons_ne [] c q p = cc
cons_ne (_ ∷ a) c q p = cc

match_path-around :
    (a q : Bytes) → IsName a → match_path (a ++ b'/' ∷ any_depth) (around a q) ≡ true
unfolding match_path split_path bytes_eq split
match_path-around a q n =
    rw
      (
        ==-other (a ++ b'/' ∷ any_depth) [] (cons_ne a b'/' any_depth),
        split_path-append a any_depth,
        split_path-append a (codes ".." ++ b'/' ∷ q),
        split_path-name a n,
      )
      (match_segments-name a (split_path (codes ".." ++ b'/' ∷ q)) n)

has_prefix-around : (a q : Bytes) → IsName a → has_prefix (around a q) (codes "/") ≡ false
unfolding has_prefix
has_prefix-around [] q n = absurd (n.nonempty refl)
has_prefix-around (c ∷ a) q n = ground (arith, n.no_slash)

-- A name without a slash in front is cleaned.
rel_of-name :
    (p : Bytes)
    → p ≢ []
    → has_prefix p (codes "/") ≡ false
    → rel_of (trim_prefix p (codes "/")) ≡ (if escapes (clean p) then none else some (clean p))
unfolding rel_of trim_prefix has_prefix
rel_of-name [] ne h = absurd (ne refl)
rel_of-name (c ∷ p) ne h = ground arith

rel_around :
    (a q : Bytes)
    → IsName a
    → trim_space (around a q) ≡ around a q
    → trim_space q ≡ q
    → has_prefix q (codes "/") ≡ false
    → q ≢ []
    → rel (around a q) ≡ rel q
unfolding rel
rel_around a q n s t u ne =
    rw
      (
        s,
        t,
        rel_of-name q ne u,
        rel_of-name (around a q) (cons_ne a b'/' (codes ".." ++ b'/' ∷ q))
            (has_prefix-around a q n),
        clean-around a q n,
      )
      refl

-- A plugin that may decrypt nothing but what lies in one folder is let through to a name that goes
-- into that folder and out again, and the store reads that name as the rest of it: any name that is
-- not empty and neither begins with a slash nor is changed by trimming spaces, if the folder is an
-- ordinary name.
pub can_decrypt-around :
    (g : Guard) (a q : Bytes)
    → IsName a
    → g.caps.decrypt ≡ true
    → g.caps.read_paths ≡ (a ++ b'/' ∷ any_depth) ∷ []
    → trim_space (around a q) ≡ around a q
    → trim_space q ≡ q
    → has_prefix q (codes "/") ≡ false
    → q ≢ []
    → (can_decrypt g (around a q) ≡ true) × (rel (around a q) ≡ rel q)
unfolding can_decrypt match_any
can_decrypt-around g a q n decrypts reads s t u ne =
    ((rw (reads, match_path-around a q n) ground (arith, decrypts)), rel_around a q n s t u ne)
