-- ===== src/Secret/Laws.antt =====
-- pkg/secret/secret.go: writing and reading back.
use binpass.Prelude.{
  true, false, List, [], ◌∷◌, ◌++◌, ◌≡◌, sym, ◌≢◌, refl, Bytes, Bool-cases, inl, inr, All, ap,
}
use mathlib.Core.Path.{ap₂}
use binpass.Text.{ends_in, trim_last, split, cut}
use binpass.Text.Laws.{
  Lacks, split_whole, cut-append, split-append, trim_last-concat, trim_last_other, ends_in-concat,
  trim_last_cons, trim_last-append,
}
use binpass.Secret.{
  Secret, create, closed, password, body, lines, lines_of, trim_returns, set_password,
}

-- A password that a first line can hold.
pub record IsLine (p : Bytes) : Type 0 where
  pub no_newline : Lacks b'\n' p
  pub no_return : ends_in b'\r' p ≡ false

cut-create : (p b : Bytes) → Lacks b'\n' p → cut b'\n' (create p b).raw ≡ (p, closed b, true)
unfolding create
cut-create p b u = cut-append b'\n' p (closed b) u

pub password-create : (p b : Bytes) → IsLine p → password (create p b) ≡ p
unfolding password
password-create p b u = rw (cut-create p b u.no_newline) (trim_last_other b'\r' p u.no_return)

pub body-create : (p b : Bytes) → Lacks b'\n' p → body (create p b) ≡ closed b
unfolding body
body-create p b u = rw (cut-create p b u)

-- A text that is empty or ends in a line feed.
abbrev pub IsClosed : Bytes → Type 0
IsClosed [] = Unit
IsClosed (c ∷ s) = ends_in b'\n' (c ∷ s) ≡ true

closed_of_IsClosed : (b : Bytes) → IsClosed b → closed b ≡ b
unfolding closed
closed_of_IsClosed [] h = refl
closed_of_IsClosed (c ∷ b) h = rw h

closed-IsClosed : (b : Bytes) → IsClosed (closed b)
unfolding closed
closed-IsClosed [] = tt
closed-IsClosed (c ∷ b) = elim (Bool-cases (ends_in b'\n' (c ∷ b))) [
  | inl e ↦ rw e e
  | inr e ↦ rw e (ends_in-concat b'\n' (c ∷ b))
]

-- A new password of one line replaces the first line, and the rest stays, but for a line feed that
-- is added to a rest that lacks its last one. A later password undoes an earlier one.
pub set_password_lem :
    (s : Secret) (p q : Bytes)
    → IsLine p
    → (password (set_password s p) ≡ p)
      × (body (set_password s p) ≡ closed (body s))
      × (set_password (set_password s p) q ≡ set_password s q)
unfolding set_password
set_password_lem s p q h = (
  password-create p (body s) h,
  body-create p (body s) h.no_newline,
  rw (body-create p (body s) h.no_newline)
      (unfold create in rw (closed_of_IsClosed (closed (body s)) (closed-IsClosed (body s)))),
)

-- The text with these lines, each ended by a line feed.
abbrev pub unlines : List Bytes → Bytes
unlines [] = []
unlines (l ∷ ls) = l ++ (b'\n' ∷ unlines ls)

pub split-unlines :
    (l : Bytes) (ls : List Bytes)
    → All IsLine (l ∷ ls)
    → split b'\n' (trim_last b'\n' (unlines (l ∷ ls))) ≡ l ∷ ls
split-unlines l [] (h, _) = rw trim_last-concat (split_whole b'\n' l h.no_newline)
split-unlines l (k ∷ ls) (h, hs) =
    rw
      (
        trim_last-append b'\n' l b'\n' (unlines (k ∷ ls)),
        trim_last_cons b'\n' b'\n' k b'\n' (unlines ls),
        split-append b'\n' l (trim_last b'\n' (unlines (k ∷ ls))) h.no_newline,
      )
      (ap (◌∷◌ l) (split-unlines k ls hs))

pub trim_returns-IsLine : (ls : List Bytes) → All IsLine ls → trim_returns ls ≡ ls
unfolding trim_returns
trim_returns-IsLine [] _ = refl
trim_returns-IsLine (l ∷ ls) (h, hs) =
    ap₂ ◌∷◌ (trim_last_other b'\r' l h.no_return) (trim_returns-IsLine ls hs)

lines_of-IsLine :
    (t : Bytes) (ls : List Bytes) → t ≢ [] → split b'\n' t ≡ ls → All IsLine ls → lines_of t ≡ ls
unfolding lines_of
lines_of-IsLine [] ls ne e h = absurd (ne refl)
lines_of-IsLine (c ∷ t) ls ne e h = rw e (trim_returns-IsLine ls h)

split-ne : (t l : Bytes) (ls : List Bytes) → split b'\n' t ≡ l ∷ ls → (l ∷ ls) ≢ ([] ∷ []) → t ≢ []
unfolding split
split-ne [] l ls e ne p = ne (sym e)
split-ne (c ∷ t) l ls e ne p = cc

-- A secret written as lines is read as the same lines, unless it is one empty line.
pub lines-unlines :
    (l : Bytes) (ls : List Bytes)
    → All IsLine (l ∷ ls)
    → (l ∷ ls) ≢ ([] ∷ [])
    → lines (record { raw = unlines (l ∷ ls) }) ≡ l ∷ ls
unfolding lines
lines-unlines l ls h ne =
    let whole = split-unlines l ls h in
    lines_of-IsLine (trim_last b'\n' (unlines (l ∷ ls))) (l ∷ ls) (split-ne _ l ls whole ne) whole h
