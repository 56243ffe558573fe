-- ===== src/Text/Laws.antt =====
-- Laws of the text operations.
use binpass.Prelude.{
  ℕ, true, false, [], ◌∷◌, ◌++◌, ◌≡◌, ◌≢◌, refl, ap, arith, Bytes, length, drop, All,
}
use binpass.Text.{has_prefix, trim_prefix, trim_last, ends_in, cut, split}

-- The text has no such byte.
abbrev pub Lacks : ℕ → Bytes → Type 0
Lacks b = All (λ c. c ≢ b)

pub has_prefix-append : (p s : Bytes) → has_prefix (p ++ s) p ≡ true
unfolding has_prefix
has_prefix-append [] s = refl
has_prefix-append (c ∷ p) s = ground (arith, has_prefix-append p s)

pub drop-append : (p s : Bytes) → drop (length p) (p ++ s) ≡ s
drop-append [] s = refl
drop-append (c ∷ p) s = drop-append p s

pub trim_prefix-append : (p s : Bytes) → trim_prefix (p ++ s) p ≡ s
unfolding trim_prefix
trim_prefix-append p s = ground (arith, has_prefix-append p s, drop-append p s)

-- A cut at the first separator.
pub cut-append : (b : ℕ) (p s : Bytes) → Lacks b p → cut b (p ++ b ∷ s) ≡ (p, s, true)
unfolding cut
cut-append b [] s u = ground arith
cut-append b (c ∷ p) s (ne, u) = ground (arith, cut-append b p s u)

pub split-append : (b : ℕ) (p s : Bytes) → Lacks b p → split b (p ++ b ∷ s) ≡ p ∷ split b s
unfolding split
split-append b [] s u = ground arith
split-append b (c ∷ p) s (ne, u) = ground (arith, split-append b p s u)

pub split_whole : (b : ℕ) (p : Bytes) → Lacks b p → split b p ≡ p ∷ []
unfolding split
split_whole b [] u = refl
split_whole b (c ∷ p) (ne, u) = ground (arith, split_whole b p u)

pub trim_last-concat : (b : ℕ) (s : Bytes) → trim_last b (s ++ b ∷ []) ≡ s
unfolding trim_last
trim_last-concat b [] = ground arith
trim_last-concat b (c ∷ []) = ground arith
trim_last-concat b (c ∷ d ∷ s) = ground (arith, trim_last-concat b (d ∷ s))

pub trim_last_other : (b : ℕ) (s : Bytes) → ends_in b s ≡ false → trim_last b s ≡ s
unfolding trim_last ends_in
trim_last_other b [] h = refl
trim_last_other b (c ∷ []) h = ground arith
trim_last_other b (c ∷ d ∷ s) h = ground (arith, trim_last_other b (d ∷ s))

pub trim_last-append :
    (b : ℕ) (s : Bytes) (c : ℕ) (t : Bytes) → trim_last b (s ++ c ∷ t) ≡ s ++ trim_last b (c ∷ t)
unfolding trim_last
trim_last-append b [] c t = refl
trim_last-append b (d ∷ []) c t = refl
trim_last-append b (d ∷ e ∷ s) c t = ap (◌∷◌ d) (trim_last-append b (e ∷ s) c t)

pub ends_in-concat : (b : ℕ) (s : Bytes) → ends_in b (s ++ b ∷ []) ≡ true
unfolding ends_in
ends_in-concat b [] = ground arith
ends_in-concat b (c ∷ []) = ground arith
ends_in-concat b (c ∷ d ∷ s) = ends_in-concat b (d ∷ s)

-- The last byte of a text is no other than that of its non-empty end.
pub trim_last_cons :
    (b c : ℕ) (s : Bytes) (d : ℕ) (t : Bytes)
    → trim_last b (c ∷ (s ++ d ∷ t)) ≡ c ∷ trim_last b (s ++ d ∷ t)
unfolding trim_last
trim_last_cons b c [] d t = refl
trim_last_cons b c (x ∷ s) d t = refl
