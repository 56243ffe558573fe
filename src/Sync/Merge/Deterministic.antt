-- ===== src/Sync/Merge/Deterministic.antt =====
-- pkg/sync/merge.go: the plan does not depend on the order in which Go visits a map.
use binpass.Prelude.{true, List, [], ◌∷◌, Option, none, some, bytes_eq, ◌≡◌, refl, sym, ◌∙◌, arith}
use mathlib.Core.Path.{ap₂}
use binpass.Prelude.Dict.{lookup}
use binpass.Otp.{Codecs}
use binpass.Sync.State.{FilePath, Snapshot, Opener}
use binpass.Sync.Merge.{Action, bytes_ltb, merge}
use binpass.Sync.Merge.Order.{bytes_ltb_irrefl, bytes_ltb_trans}
use binpass.Sync.Merge.Plan.{find_action, Before, IsSorted, merge_lem}

Before-find :
    (p q : FilePath) (bs : List Action) (a : Action)
    → Before p bs
    → find_action q bs ≡ some a
    → bytes_ltb p q ≡ true
Before-find p q [] a h e = cc
Before-find p q (b ∷ bs) a (h, hs) e = ground (arith, Before-find p q bs a)

find-Before : (p : FilePath) (bs : List Action) → Before p bs → find_action p bs ≡ none
find-Before p [] h = refl
find-Before p (b ∷ bs) (h, hs) = ground (arith, find-Before p bs, bytes_ltb_irrefl p)

-- The heads of two plans with the same actions are one.
heads :
    (a b : Action) (xs bs : List Action)
    → Before a.path xs
    → Before b.path bs
    → find_action a.path (a ∷ xs) ≡ find_action a.path (b ∷ bs)
    → find_action b.path (a ∷ xs) ≡ find_action b.path (b ∷ bs)
    → a ≡ b
heads a b xs bs ha hb e f = ground (
  arith,
  Before-find a.path b.path xs b ha,
  Before-find b.path a.path bs a hb,
  bytes_ltb_trans a.path b.path a.path,
  bytes_ltb_irrefl a.path,
)

IsSorted-unique :
    (xs bs : List Action)
    → IsSorted xs
    → IsSorted bs
    → ((p : FilePath) → find_action p xs ≡ find_action p bs)
    → xs ≡ bs
IsSorted-unique [] [] s t h = refl
IsSorted-unique [] (b ∷ bs) s t h = ground (arith, h b.path)
IsSorted-unique (a ∷ xs) [] s t h = ground (arith, h a.path)
IsSorted-unique (a ∷ xs) (b ∷ bs) (ha, s) (hb, t) h =
    let e = heads a b xs bs ha hb (h a.path) (h b.path) in
    ap₂ ◌∷◌ e (
      IsSorted-unique xs bs s t
        (λ p. ground (arith, e, h p, find-Before a.path xs ha, find-Before b.path bs hb)))

-- Two snapshots that hold the same files.
abbrev pub SameFiles : Snapshot → Snapshot → Type 0
SameFiles s t = (p : FilePath) → lookup p s ≡ lookup p t

module _ (lib : Codecs) (opener : Option Opener) where
  -- Snapshots that hold the same files, in whatever order their maps are visited, give the very
  -- same plan.
  pub merge-SameFiles :
      (l l' r r' b b' : Snapshot)
      → SameFiles l l'
      → SameFiles r r'
      → SameFiles b b'
      → merge lib l r b opener ≡ merge lib l' r' b' opener
  merge-SameFiles l l' r r' b b' hl hr hb =
      let one = merge_lem lib l r b opener in
      let two = merge_lem lib l' r' b' opener in
      IsSorted-unique _ _ one.0 two.0 (λ p. one.1 p ∙ rw (hl p, hr p, hb p) (sym (two.1 p)))
