-- ===== src/Sync/Merge/Decision.antt =====
-- pkg/sync/merge.go: the branches of `mergeExisting` as a family, for the proofs to match on.
use binpass.Prelude.{
  ℕ, true, false, Option, none, some, bytes_eq, ◌≡◌, ◌≢◌, refl, inl, inr, arith, Bool-cases,
  Option-cases,
}
use mathlib.Core.Logic.{if_pos, if_neg}
use binpass.Secret.{Secret}
use binpass.Otp.{Codecs}
use binpass.Sync.Version.{clone, equal, dominates, merge as join, diverges}
use binpass.Sync.State.{FileState, Opener}
use binpass.Sync.Hotp.{merged_counter}
use binpass.Sync.Merge.{
  act_none, act_push, act_pull, act_merge_hotp, Action, Sides, decide, opened, try_hotp_merge,
  with_opener, merge_existing, diverged, conflict_of, hotp_merged, versions_equal, local_dominates,
  remote_dominates, identical_ciphertexts,
}

abbrev pub hotp_action : Sides → FileState → FileState → ℕ → Action
hotp_action s l r n = decide s act_merge_hotp hotp_merged (some (join l.version r.version)) n

module _ (lib : Codecs) (s : Sides) (l r : FileState) where
  opened-eq :
      (x y : Option Secret) (a : Action)
      → opened lib s l r x y ≡ some a
      → (n : ℕ) × (a ≡ hotp_action s l r n)
        × (u : Secret) × (v : Secret) × (x ≡ some u)
        × (y ≡ some v)
        × (merged_counter lib u v ≡ some n)
  unfolding opened
  opened-eq (some x) (some y) a e = elim (Option-cases (merged_counter lib x y)) [
    | inl fails ↦ absurd (ground arith)
    | inr (n, wins) ↦ (n, ground arith, x, y, refl, refl, wins)
  ]
  opened-eq _ _ a e = absurd (ground arith)

  -- The secrets that the opener gives for the two paths have one merged counter.
  abbrev pub Merges : Option Opener → ℕ → Type 0
  Merges opener n =
      (f : Opener) × (x : Secret) × (y : Secret) × (opener ≡ some f)
      × (f l.path ≡ some x)
      × (f r.path ≡ some y)
      × (merged_counter lib x y ≡ some n)

  with_opener-eq :
      (opener : Option Opener) (a : Action)
      → with_opener lib s l r opener ≡ some a
      → (n : ℕ) × (a ≡ hotp_action s l r n) × Merges opener n
  unfolding with_opener try_hotp_merge
  with_opener-eq none a e = absurd (ground arith)
  with_opener-eq (some f) a e =
      let (n, eq, x, y, at_l, at_r, wins) = opened-eq (f l.path) (f r.path) a e in
      (n, eq, (f, x, y, refl, at_l, at_r, wins))

  -- The branches of `mergeExisting`, each with what its tests have found.
  pub data Branch (opener : Option Opener) : Action → Type 0 where
    same :
        equal l.version r.version ≡ true
        → Branch opener (decide s act_none versions_equal (some (clone l.version)) 0)
    local_ahead :
        dominates l.version r.version ≡ true
        → Branch opener (decide s act_push local_dominates (some (clone l.version)) 0)
    remote_ahead :
        dominates r.version l.version ≡ true
        → dominates l.version r.version ≡ false
        → Branch opener (decide s act_pull remote_dominates (some (clone r.version)) 0)
    same_content :
        diverges l.version r.version ≡ true
        → l.hash ≡ r.hash
        → Branch opener
            (decide s act_none identical_ciphertexts (some (join l.version r.version)) 0)
    hotp_only :
        diverges l.version r.version ≡ true
        → l.hash ≢ r.hash
        → (n : ℕ) → Merges opener n
        → Branch opener (hotp_action s l r n)
    conflict :
        diverges l.version r.version ≡ true
        → l.hash ≢ r.hash
        → Branch opener (conflict_of lib s l r)

  diverged-Branch :
      (opener : Option Opener)
      → diverges l.version r.version ≡ true
      → Branch opener (diverged lib s l r opener)
  unfolding diverged
  diverged-Branch opener d = elim (bytes_eq.dec l.hash r.hash) [
    | yes p ↦ rw (if_pos _ p) (same_content d p)
    | no p ↦ rw (if_neg _ p) (elim (Option-cases (with_opener lib s l r opener)) [
      | inl fails ↦ rw fails (conflict d p)
      | inr (a, wins) ↦
          let (n, e, m) = with_opener-eq opener a wins in rw (wins, e) (hotp_only d p n m)
    ])
  ]

  pub merge_existing-Branch :
      (opener : Option Opener) → Branch opener (merge_existing lib s l r opener)
  unfolding merge_existing
  merge_existing-Branch opener = elim (Bool-cases (equal l.version r.version)) [
    | inl e ↦ rw e (same e)
    | inr e ↦ elim (Bool-cases (dominates l.version r.version)) [
      | inl d ↦ rw (e, d) (local_ahead d)
      | inr d ↦ elim (Bool-cases (dominates r.version l.version)) [
        | inl d' ↦ rw (e, d, d') (remote_ahead d' d)
        | inr d' ↦ rw (e, d, d') (diverged-Branch opener (unfold diverges in ground arith))
      ]
    ]
  ]
