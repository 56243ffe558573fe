-- ===== src/Sync/Merge/Safety.antt =====
-- pkg/sync/merge.go: carrying out a decision loses no edit.
use binpass.Prelude.{
  ℕ, max, List, [], ◌∷◌, ◌++◌, Bytes, true, not, ◌&&◌, Option, Option-cases, some_inj, ==-eq, ap,
  sym, ◌∙◌, drop, length, subst, none, some, ◌==◌, bytes_eq, ◌≡◌, ◌⊎◌, inl, inr, refl, arith,
  Bool-cases,
}
use binpass.Otp.{Codecs, Config}
use binpass.Text.{has_prefix, replace_first}
use binpass.Secret.{Secret, replace_line_containing, otp_all}
use binpass.Sync.Hotp.{
  extract_hotp, first_hotp, merged_counter, merged_of, counter_param, normalise_counter,
}
use binpass.Sync.Version.{VersionVector, equal}
use binpass.Sync.Version.Order.{Same, Below, equal_sound, dominates-Below}
use binpass.Sync.State.{FilePath, FileState, Opener, no_digest}
use binpass.Sync.Merge.{
  ActionKind, act_none, act_push, act_pull, act_conflict, act_delete, act_merge_hotp, Action, Sides,
  classify, merge_file,
}
use binpass.Sync.Merge.Decision.{
  Branch, same, local_ahead, remote_ahead, same_content, hotp_only, conflict, merge_existing-Branch,
}

-- The history of a side, if the file is there, is contained in another one.
abbrev pub Contained : Option FileState → VersionVector → Type 0
Contained none v = Unit
Contained (some x) v = Below x.version v

-- The side holds the base's history, or nothing.
abbrev pub Unchanged : Option FileState → Option FileState → Type 0
Unchanged none b = Unit
Unchanged (some x) b = (y : FileState) × (b ≡ some y) × Same x.version y.version

abbrev pub Present : Option FileState → Type 0
Present o = (x : FileState) × (o ≡ some x)

-- Both files are there, with one history or one content.
abbrev pub Agree : Option FileState → Option FileState → Type 0
Agree none r = ⊥
Agree (some x) none = ⊥
Agree (some x) (some y) = Same x.version y.version ⊎ (x.hash ≡ y.hash)

-- The secrets that the opener gives for the two paths differ in their counters only, and the merged
-- one is the greater: the local text with the remote counter in place of its own is the remote
-- text.
pub record CounterOnly (lib : Codecs) (opener : Option Opener) (l r : FileState) (n : ℕ)
    : Type 0 where
  pub open_file : Opener
  pub ours : Secret
  pub theirs : Secret
  pub our_config : Config
  pub their_config : Config
  pub opens : opener ≡ some open_file
  pub our_secret : open_file l.path ≡ some ours
  pub their_secret : open_file r.path ≡ some theirs
  pub our_counter : extract_hotp lib ours ≡ some (our_config, our_config.counter)
  pub their_counter : extract_hotp lib theirs ≡ some (their_config, their_config.counter)
  pub only :
      replace_line_containing ours
        (counter_param our_config.counter)
        (counter_param their_config.counter)
      ≡ theirs
  pub greater : n ≡ max our_config.counter their_config.counter

abbrev CounterOnlyOf : Codecs → Option Opener → Option FileState → Option FileState → ℕ → Type 0
CounterOnlyOf lib opener (some l) (some r) n = CounterOnly lib opener l r n
CounterOnlyOf lib opener _ _ n = ⊥

-- What an action of each kind may rely on, so that carrying it out loses no edit.
abbrev SafeKind :
    Codecs
    → Option Opener
    → ℕ
    → ActionKind
    → Option FileState
    → Option FileState
    → Option FileState
    → Type 0
SafeKind lib o n act_none l r b = Agree l r
SafeKind lib o n act_push l r b = (x : FileState) × (l ≡ some x) × Contained r x.version
SafeKind lib o n act_pull l r b = (y : FileState) × (r ≡ some y) × Contained l y.version
SafeKind lib o n act_conflict l r b = Present l × Present r
SafeKind lib o n act_delete l r b = ((l ≡ none) ⊎ (r ≡ none)) × Unchanged l b × Unchanged r b
SafeKind lib o n act_merge_hotp l r b = CounterOnlyOf lib o l r n

abbrev pub IsSafe :
    Codecs
    → Option Opener
    → Action
    → Option FileState
    → Option FileState
    → Option FileState
    → Type 0
IsSafe lib o a l r b = SafeKind lib o a.merged_counter a.kind l r b

prefix_back : (s p : Bytes) → has_prefix s p ≡ true → p ++ drop (length p) s ≡ s
unfolding has_prefix
prefix_back s [] h = refl
prefix_back [] (c ∷ p) h = cc
prefix_back (d ∷ s) (c ∷ p) h = ground (arith, prefix_back s p)

replace_first-same : (s old : Bytes) → replace_first s old old ≡ s
unfolding replace_first has_prefix
replace_first-same [] [] = refl
replace_first-same [] (o ∷ old) = refl
replace_first-same (c ∷ s) old = elim (Bool-cases (has_prefix (c ∷ s) old)) [
  | inl front ↦ rw front (prefix_back (c ∷ s) old front)
  | inr later ↦ rw later (ap (◌∷◌ c) (replace_first-same s old))
]

first_hotp-counter :
    (lib : Codecs) (uris : List Bytes) (cfg : Config) (n : ℕ)
    → first_hotp lib uris ≡ some (cfg, n)
    → n ≡ cfg.counter
unfolding first_hotp
first_hotp-counter lib [] cfg n h = cc
first_hotp-counter lib (uri ∷ uris) cfg n h = ground (arith, first_hotp-counter lib uris cfg n, h)

merged_counter-CounterOnly :
    (lib : Codecs) (opener : Option Opener) (l r : FileState) (n : ℕ) (f : Opener) (x y : Secret)
    → opener ≡ some f
    → f l.path ≡ some x
    → f r.path ≡ some y
    → merged_counter lib x y ≡ some n
    → CounterOnly lib opener l r n
unfolding merged_counter merged_of
merged_counter-CounterOnly lib opener l r n f x y o at_l at_r m =
    elim (Option-cases (extract_hotp lib x)) [
      | inl lacking ↦ absurd (let z = rw lacking at m in cc)
      | inr ((lc, ln), ex) ↦ elim (Option-cases (extract_hotp lib y)) [
        | inl lacking ↦ absurd (let z = rw (ex, lacking) at m in cc)
        | inr ((rc, rn), ey) ↦
            elim (Bool-cases (normalise_counter x lc rn == normalise_counter y rc rn)) [
              | inr differ ↦ absurd (let z = rw (ex, ey, differ) at m in cc)
              | inl agree ↦
                  let el = first_hotp-counter lib (otp_all x) lc ln (unfold extract_hotp in ex) in
                  let er = first_hotp-counter lib (otp_all y) rc rn (unfold extract_hotp in ey) in
                  let text : (normalise_counter x lc rc.counter) ≡ y.raw =
                    subst (λ k. normalise_counter x lc k ≡ normalise_counter y rc k) er
                      (==-eq (normalise_counter x lc rn) (normalise_counter y rc rn) agree)
                    ∙ unfold normalise_counter replace_line_containing in
                      replace_first-same y.raw (counter_param rc.counter) in
                  record {
                    open_file = f;
                    ours = x;
                    theirs = y;
                    our_config = lc;
                    their_config = rc;
                    opens = o;
                    our_secret = at_l;
                    their_secret = at_r;
                    our_counter = ex ∙ ap (λ k. some (lc, k)) el;
                    their_counter = ey ∙ ap (λ k. some (rc, k)) er;
                    only = unfold normalise_counter in ap (λ t. record { raw = t }) text;
                    greater =
                        sym (some_inj (rw (ex, ey, agree) at m))
                        ∙ ap (λ k. max k rn) el
                        ∙ ap (max lc.counter) er;
                  }
            ]
      ]
    ]

Branch-IsSafe :
    {lib : Codecs} {s : Sides} {l r : FileState} {opener : Option Opener} (b : FileState)
    {a : Action}
    → Branch lib s l r opener a
    → IsSafe lib opener a (some l) (some r) (some b)
Branch-IsSafe {l} {r} b (same e) = inl (equal_sound l.version r.version e)
Branch-IsSafe {l} {r} b (local_ahead d) = (l, refl, dominates-Below l.version r.version d)
Branch-IsSafe {l} {r} b (remote_ahead d _) = (r, refl, dominates-Below r.version l.version d)
Branch-IsSafe b (same_content _ e) = inr e
Branch-IsSafe {lib} {l} {r} {opener} b (hotp_only _ _ n (f, x, y, o, at_l, at_r, m)) =
    merged_counter-CounterOnly lib opener l r n f x y o at_l at_r m
Branch-IsSafe {l} {r} b (conflict _ _) = ((l, refl), (r, refl))

module _ (lib : Codecs) where
  one_side : (x y : FileState) → equal x.version y.version ≡ true → Unchanged (some x) (some y)
  one_side x y e = (y, refl, equal_sound x.version y.version e)

  classify-IsSafe :
      (s : Sides) (l r b : Option FileState) (opener : Option Opener)
      → IsSafe lib opener (classify lib s l r b opener) l r b
  unfolding classify
  classify-IsSafe s (some l) (some r) (some b) opener =
      Branch-IsSafe b (merge_existing-Branch lib s l r opener)
  classify-IsSafe s (some l) none none opener = (l, refl, tt)
  classify-IsSafe s none (some r) none opener = (r, refl, tt)
  classify-IsSafe s none (some r) (some b) opener = elim (Bool-cases (equal r.version b.version)) [
    | inl e ↦ rw e (inl refl, tt, one_side r b e)
    | inr e ↦ rw e (r, refl, tt)
  ]
  classify-IsSafe s (some l) none (some b) opener = elim (Bool-cases (equal l.version b.version)) [
    | inl e ↦ rw e (inr refl, one_side l b e, tt)
    | inr e ↦ rw e (l, refl, tt)
  ]
  classify-IsSafe s none none (some b) opener = (inl refl, tt, tt)
  classify-IsSafe s (some l) (some r) none opener =
      elim (Bool-cases (l.hash == r.hash && not (l.hash == no_digest))) [
        | inl e ↦ rw e (inr (ground arith))
        | inr e ↦ rw e ((l, refl), (r, refl))
      ]
  classify-IsSafe s none none none opener = (inl refl, tt, tt)

  -- Whatever the decision, the side that it overwrites or deletes holds no edit that the other
  -- side, or a conflict copy, does not keep: a push needs the remote's history contained in the
  -- local one, a pull the other way round, a deletion a side that is gone and another that holds
  -- the base's history; a file that is left alone has one history or one content on both sides; a
  -- conflict finds both files; and an HOTP merge finds both files, and the opener gives secrets for
  -- their paths that differ in the counter only, of which the greater is taken.
  pub merge_file-IsSafe :
      (p : FilePath) (l r b : Option FileState) (opener : Option Opener)
      → IsSafe lib opener (merge_file lib p l r b opener) l r b
  unfolding merge_file
  merge_file-IsSafe p l r b opener = classify-IsSafe _ l r b opener
