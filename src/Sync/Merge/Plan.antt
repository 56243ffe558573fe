-- ===== src/Sync/Merge/Plan.antt =====
-- pkg/sync/merge.go: `Merge` plans one action for each path, in the order of the paths.
use binpass.Prelude.{
  Bool, true, false, ◌||◌, List, [], ◌∷◌, Option, none, some, ◌==◌, bytes_eq, if◌then◌else◌,
  contains, All, ◌≡◌, inl, inr, refl, arith, Bool-cases, ◌∙◌,
}
use binpass.Prelude.Dict.{lookup, keys, contains-keys}
use binpass.Otp.{Codecs}
use binpass.Sync.State.{FilePath, FileState, Snapshot, Opener}
use binpass.Sync.Merge.{
  Action, merge_file, bytes_ltb, add_path, add_paths, all_paths, insert_by_path, sort_by_path,
  merge_paths, merge, classify, Sides,
}
use binpass.Sync.Merge.Decision.{
  Branch, same, local_ahead, remote_ahead, same_content, hotp_only, conflict, merge_existing-Branch,
}
use binpass.Sync.Merge.Order.{bytes_ltb_trans, bytes_ltb_total}

abbrev pub find_action : FilePath → List Action → Option Action
find_action p [] = none
find_action p (a ∷ actions) = if p == a.path then some a else find_action p actions

abbrev pub Before : FilePath → List Action → Type 0
Before p = All (λ b. bytes_ltb p b.path ≡ true)

-- The paths grow strictly, so that none occurs twice.
abbrev pub IsSorted : List Action → Type 0
IsSorted [] = Unit
IsSorted (a ∷ actions) = Before a.path actions × IsSorted actions

abbrev Distinct : List Action → Type 0
Distinct [] = Unit
Distinct (a ∷ actions) = (find_action a.path actions ≡ none) × Distinct actions

find-insert :
    (p : FilePath) (a : Action) (bs : List Action)
    → find_action a.path bs ≡ none
    → find_action p (insert_by_path a bs) ≡ (if p == a.path then some a else find_action p bs)
unfolding insert_by_path
find-insert p a [] h = refl
find-insert p a (b ∷ bs) h = ground (arith, find-insert p a bs)

Before-trans :
    (p q : FilePath) (bs : List Action) → bytes_ltb p q ≡ true → Before q bs → Before p bs
Before-trans p q [] h k = tt
Before-trans p q (b ∷ bs) h (k, ks) = (bytes_ltb_trans p q b.path h k, Before-trans p q bs h ks)

Before-insert :
    (p : FilePath) (a : Action) (bs : List Action)
    → bytes_ltb p a.path ≡ true
    → Before p bs
    → Before p (insert_by_path a bs)
unfolding insert_by_path
Before-insert p a [] h k = (h, tt)
Before-insert p a (b ∷ bs) h (k, ks) = elim (Bool-cases (bytes_ltb b.path a.path)) [
  | inl e ↦ rw e (k, Before-insert p a bs h ks)
  | inr e ↦ rw e (h, (k, ks))
]

insert-IsSorted :
    (a : Action) (bs : List Action)
    → find_action a.path bs ≡ none
    → IsSorted bs
    → IsSorted (insert_by_path a bs)
unfolding insert_by_path
insert-IsSorted a [] h s = (tt, tt)
insert-IsSorted a (b ∷ bs) h (before, s) = elim (Bool-cases (bytes_ltb b.path a.path)) [
  | inl e ↦ rw e (Before-insert b.path a bs e before, insert-IsSorted a bs (ground arith) s)
  | inr e ↦ elim (bytes_ltb_total a.path b.path) [
    | inl lt ↦ rw e ((lt, Before-trans a.path b.path bs lt before), (before, s))
    | inr (inl gt) ↦ absurd (cc (gt, e))
    | inr (inr one) ↦ ground arith
  ]
]

find-sort :
    (p : FilePath) (actions : List Action)
    → Distinct actions
    → find_action p (sort_by_path actions) ≡ find_action p actions
unfolding sort_by_path
find-sort p [] d = refl
find-sort p (a ∷ actions) (fresh, d) = rw (
  find-insert p a (sort_by_path actions) (rw (find-sort a.path actions d) fresh),
  find-sort p actions d,
)

sort-IsSorted : (actions : List Action) → Distinct actions → IsSorted (sort_by_path actions)
unfolding sort_by_path
sort-IsSorted [] d = tt
sort-IsSorted (a ∷ actions) (fresh, d) =
    insert-IsSorted a (sort_by_path actions) (rw (find-sort a.path actions d) fresh)
      (sort-IsSorted actions d)

-- The paths of a plan before it is sorted.
abbrev NodupPaths : List FilePath → Type 0
NodupPaths [] = Unit
NodupPaths (p ∷ ps) = (contains ps p ≡ false) × NodupPaths ps

contains-add_path :
    (ps : List FilePath) (q p : FilePath) → contains (add_path ps q) p ≡ (p == q || contains ps p)
unfolding add_path
contains-add_path ps q p = ground arith

contains-add_paths :
    (ps qs : List FilePath) (p : FilePath)
    → contains (add_paths ps qs) p ≡ (contains ps p || contains qs p)
unfolding add_paths
contains-add_paths ps [] p = ground arith
contains-add_paths ps (q ∷ qs) p =
    ground (arith, contains-add_paths (add_path ps q) qs p, contains-add_path ps q p)

add_paths-NodupPaths : (ps qs : List FilePath) → NodupPaths ps → NodupPaths (add_paths ps qs)
unfolding add_paths
add_paths-NodupPaths ps [] u = u
add_paths-NodupPaths ps (q ∷ qs) u =
    add_paths-NodupPaths (add_path ps q) qs (unfold add_path in ground arith)

Branch-path :
    {lib : Codecs} {s : Sides} {l r : FileState} {opener : Option Opener} {a : Action}
    → Branch lib s l r opener a
    → a.path ≡ s.path
Branch-path (same _) = refl
Branch-path (local_ahead _) = refl
Branch-path (remote_ahead _ _) = refl
Branch-path (same_content _ _) = refl
Branch-path (hotp_only _ _ _ _) = refl
Branch-path (conflict _ _) = refl

module _ (lib : Codecs) where
  classify-path :
      (s : Sides) (l r b : Option FileState) (opener : Option Opener)
      → (classify lib s l r b opener).path ≡ s.path
  unfolding classify
  classify-path s (some l) (some r) (some b) opener =
      Branch-path (merge_existing-Branch lib s l r opener)
  classify-path s (some l) none none opener = refl
  classify-path s _ _ _ opener = ground arith

  pub merge_file-path :
      (p : FilePath) (l r b : Option FileState) (opener : Option Opener)
      → (merge_file lib p l r b opener).path ≡ p
  unfolding merge_file
  merge_file-path p l r b opener = classify-path _ l r b opener

-- The action for a path that some snapshot has.
abbrev pub planned :
    Codecs
    → FilePath
    → Option FileState
    → Option FileState
    → Option FileState
    → Option Opener
    → Option Action
planned lib p none none none opener = none
planned lib p l r b opener = some (merge_file lib p l r b opener)

module _ (lib : Codecs) (local remote base : Snapshot) (opener : Option Opener) where
  abbrev decided : FilePath → Action
  decided p = merge_file lib p (lookup p local) (lookup p remote) (lookup p base) opener

  find-merge_paths :
      (ps : List FilePath) (p : FilePath)
      → find_action p (merge_paths lib local remote base opener ps)
        ≡ (if contains ps p then some (decided p) else none)
  unfolding merge_paths
  find-merge_paths [] p = refl
  find-merge_paths (q ∷ ps) p = ground (
    arith,
    merge_file-path lib q (lookup q local) (lookup q remote) (lookup q base) opener,
    find-merge_paths ps p,
  )

  merge_paths-Distinct :
      (ps : List FilePath) → NodupPaths ps → Distinct (merge_paths lib local remote base opener ps)
  unfolding merge_paths
  merge_paths-Distinct [] u = tt
  merge_paths-Distinct (p ∷ ps) (fresh, u) = (
    rw (merge_file-path lib p _ _ _ opener, find-merge_paths ps p, fresh),
    merge_paths-Distinct ps u,
  )

  known : FilePath → Bool
  known p = (contains (keys local) p || contains (keys remote) p) || contains (keys base) p

  contains-all_paths : (p : FilePath) → contains (all_paths local remote base) p ≡ known p
  unfolding all_paths known
  contains-all_paths p = rw (
    contains-add_paths _ (keys base) p,
    contains-add_paths _ (keys remote) p,
    contains-add_paths [] (keys local) p,
  )

  all_paths-NodupPaths : NodupPaths (all_paths local remote base)
  unfolding all_paths
  all_paths-NodupPaths =
      add_paths-NodupPaths _ (keys base)
        (add_paths-NodupPaths _ (keys remote) (add_paths-NodupPaths [] (keys local) tt))

  planned-known :
      (p : FilePath)
      → (if known p then some (decided p) else none)
        ≡ planned lib p (lookup p local) (lookup p remote) (lookup p base) opener
  unfolding known
  planned-known p =
      ground (arith, contains-keys local p, contains-keys remote p, contains-keys base p)

  -- The plan has one action for each path that some snapshot has, the decision for that path, and
  -- none for any other. The paths grow strictly, so that the order is fixed and none is repeated.
  pub merge_lem :
      IsSorted (merge lib local remote base opener)
      × ((p : FilePath)
          → find_action p (merge lib local remote base opener)
            ≡ planned lib p (lookup p local) (lookup p remote) (lookup p base) opener)
  unfolding merge
  merge_lem =
      let distinct = merge_paths-Distinct (all_paths local remote base) all_paths-NodupPaths in
      (
        sort-IsSorted _ distinct,
        λ p.
            find-sort p _ distinct
            ∙ find-merge_paths (all_paths local remote base) p
            ∙ rw (contains-all_paths p) (planned-known p),
      )
