-- ===== src/Sync/Version/Order.antt =====
-- pkg/sync/version.go: `Equal`, `Dominates` and `Diverges` against the causal order, in which one
-- history lies below another if each of its counters does.
use binpass.Prelude.{
  ℕ, ◌≤◌, ◌<◌, Bool, true, false, ◌||◌, [], ◌∷◌, none, some, ◌≡◌, ◌↔◌, ◌⊎◌, inl, inr, refl, sym,
  arith, bytes_eq, ltb, and-eq-true, Option-cases, Bool-cases,
}
use binpass.Prelude.Dict.{lookup, lookup-cons, NodupKeys}
use binpass.Sync.Version.{
  DeviceId, VersionVector, counter, covers, equal, dominates_loop, none_missing, dominates,
}

abbrev pub Same : VersionVector → VersionVector → Type 0
Same a b = (id : DeviceId) → counter a id ≡ counter b id

abbrev pub Below : VersionVector → VersionVector → Type 0
Below a b = (id : DeviceId) → counter a id ≤ counter b id

-- A device that is ahead in the second vector.
abbrev pub Ahead : VersionVector → VersionVector → Type 0
Ahead a b = (id : DeviceId) × (counter a id < counter b id)

-- What a loop over the entries of `a` has to show about each of them.
abbrev OnEntries : VersionVector → (DeviceId → ℕ → Type 0) → Type 0
OnEntries a P = (id : DeviceId) (c : ℕ) → lookup id a ≡ some c → P id c

OnEntries-tail :
    (id : DeviceId) (c : ℕ) (a : VersionVector) (P : DeviceId → ℕ → Type 0)
    → lookup id a ≡ none
    → OnEntries ((id, c) ∷ a) P
    → OnEntries a P
OnEntries-tail id c a P fresh h j d e = h j d (ground (arith, lookup-cons j id c a))

OnEntries-head :
    (id : DeviceId) (c : ℕ) (a : VersionVector) (P : DeviceId → ℕ → Type 0)
    → OnEntries ((id, c) ∷ a) P
    → P id c
OnEntries-head id c a P h = h id c (ground (arith, lookup-cons id id c a))

covers_sound :
    (a b : VersionVector) (id : DeviceId) (c : ℕ)
    → covers a b ≡ true
    → lookup id a ≡ some c
    → c ≡ counter b id
unfolding covers lookup
covers_sound [] b id c h e = cc
covers_sound ((j, d) ∷ a) b id c h e = ground (arith, covers_sound a b id c)

covers_complete :
    (a b : VersionVector) → NodupKeys a → OnEntries a (λ id c. c ≡ counter b id) → covers a b ≡ true
unfolding covers
covers_complete [] b u h = refl
covers_complete ((j, d) ∷ a) b (fresh, u) h = ground (
  arith,
  OnEntries-head j d a (λ id c. c ≡ counter b id) h,
  covers_complete a b u (OnEntries-tail j d a (λ id c. c ≡ counter b id) fresh h),
)

pub equal_sound : (a b : VersionVector) → equal a b ≡ true → Same a b
unfolding equal
equal_sound a b h id = elim (Option-cases (lookup id a)) [
  | inl absent ↦ elim (Option-cases (lookup id b)) [
    | inl absent' ↦ rw (absent, absent') refl
    | inr (d, e) ↦ rw e (sym (covers_sound b a id d (and-eq-true h).1 e))
  ]
  | inr (c, e) ↦ rw e (covers_sound a b id c (and-eq-true h).0 e)
]

module _ (a b : VersionVector) (ua : NodupKeys a) (ub : NodupKeys b) where
  -- Between maps, `Equal` holds exactly when every device has the same counter on both sides.
  pub equal_iff : (equal a b ≡ true) ↔ Same a b
  unfolding equal
  equal_iff = (
    equal_sound a b,
    λ same. ground (
      arith,
      covers_complete a b ua (λ id c e. rw (rw e at (same id))),
      covers_complete b a ub (λ id c e. sym (rw e at (same id))),
    ),
  )

dominates_loop-le :
    (a b : VersionVector) (g r : Bool) (id : DeviceId) (c : ℕ)
    → dominates_loop a b g ≡ some r
    → lookup id a ≡ some c
    → counter b id ≤ c
unfolding dominates_loop lookup
dominates_loop-le [] b g r id c h e = cc
dominates_loop-le ((j, d) ∷ a) b g r id c h e =
    ground (arith, dominates_loop-le a b (g || ltb (counter b j) d) r id c)

dominates_loop-keeps :
    (a b : VersionVector) (r : Bool) → dominates_loop a b true ≡ some r → r ≡ true
unfolding dominates_loop
dominates_loop-keeps [] b r h = cc
dominates_loop-keeps ((j, d) ∷ a) b r h = ground (arith, dominates_loop-keeps a b r)

pub dominates_loop_ahead :
    (a b : VersionVector) (g r : Bool) (id : DeviceId) (c : ℕ)
    → dominates_loop a b g ≡ some r
    → lookup id a ≡ some c
    → counter b id < c
    → r ≡ true
unfolding dominates_loop lookup
dominates_loop_ahead [] b g r id c h e lt = cc
dominates_loop_ahead ((j, d) ∷ a) b g r id c h e lt =
    ground (
      arith,
      dominates_loop-keeps a b r,
      dominates_loop_ahead a b (g || ltb (counter b j) d) r id c,
    )

dominates_loop_strict :
    (a b : VersionVector) (g : Bool)
    → NodupKeys a
    → dominates_loop a b g ≡ some true
    → (g ≡ true) ⊎ Ahead b a
unfolding dominates_loop
dominates_loop_strict [] b g u h = inl cc
dominates_loop_strict ((j, d) ∷ a) b g (fresh, u) h = elim (Bool-cases (ltb (counter b j) d)) [
  | inl more ↦ inr (j, ground (arith, lookup-cons j j d a))
  | inr same ↦ elim (dominates_loop_strict a b (g || ltb (counter b j) d) u (ground arith)) [
    | inl e ↦ inl (ground arith)
    | inr (id, lt) ↦ inr (id, ground (arith, lookup-cons id j d a))
  ]
]

pub dominates_loop_total :
    (a b : VersionVector) (g : Bool)
    → NodupKeys a
    → OnEntries a (λ id c. counter b id ≤ c)
    → (r : Bool) × (dominates_loop a b g ≡ some r)
unfolding dominates_loop
dominates_loop_total [] b g u h = (g, refl)
dominates_loop_total ((j, d) ∷ a) b g (fresh, u) h =
    let (r, e) =
      dominates_loop_total a b (g || ltb (counter b j) d) u (OnEntries-tail j d a _ fresh h) in
    (r, ground (arith, OnEntries-head j d a (λ id c. counter b id ≤ c) h))

none_missing_sound :
    (b a : VersionVector) (id : DeviceId) (c : ℕ)
    → none_missing b a ≡ true
    → lookup id b ≡ some c
    → lookup id a ≡ none
    → c ≡ 0
unfolding none_missing lookup
none_missing_sound [] a id c h e absent = cc
none_missing_sound ((j, d) ∷ b) a id c h e absent = ground (arith, none_missing_sound b a id c)

pub none_missing_complete :
    (b a : VersionVector)
    → NodupKeys b
    → OnEntries b (λ id c. c ≤ counter a id)
    → none_missing b a ≡ true
unfolding none_missing
none_missing_complete [] a u h = refl
none_missing_complete ((j, d) ∷ b) a (fresh, u) h = ground (
  arith,
  OnEntries-head j d b (λ id c. c ≤ counter a id) h,
  none_missing_complete b a u (OnEntries-tail j d b _ fresh h),
)

dominates-parts :
    (a b : VersionVector)
    → dominates a b ≡ true
    → (dominates_loop a b false ≡ some true) × (none_missing b a ≡ true)
unfolding dominates
dominates-parts a b h = ground arith

pub dominates-Below : (a b : VersionVector) → dominates a b ≡ true → Below b a
dominates-Below a b h id = elim (Option-cases (lookup id b)) [
  | inl absent ↦ rw absent (omega arith)
  | inr (cb, eb) ↦ elim (Option-cases (lookup id a)) [
    | inl absent ↦
        rw (eb, absent)
          (omega (arith, none_missing_sound b a id cb (dominates-parts a b h).1 eb absent))
    | inr (ca, ea) ↦ rw ea (dominates_loop-le a b false true id ca (dominates-parts a b h).0 ea)
  ]
]

pub dominates-Ahead : (a b : VersionVector) → NodupKeys a → dominates a b ≡ true → Ahead b a
dominates-Ahead a b u h = elim (dominates_loop_strict a b false u (dominates-parts a b h).0) [
  | inl e ↦ absurd (cc e)
  | inr ahead ↦ ahead
]

dominates_complete :
    (a b : VersionVector) → NodupKeys a → NodupKeys b → Below b a → Ahead b a → dominates a b ≡ true
unfolding dominates
dominates_complete a b ua ub below (id, lt) =
    let (r, e) = dominates_loop_total a b false ua (λ j c found. rw found at (below j)) in
    let whole = none_missing_complete b a ub (λ j c found. rw found at (below j)) in
    elim (Option-cases (lookup id a)) [
      | inl absent ↦ absurd (omega (arith, rw absent at lt))
      | inr (c, found) ↦
          ground (arith, e, whole, dominates_loop_ahead a b false r id c e found (rw found at lt))
    ]

module _ (a b : VersionVector) (ua : NodupKeys a) (ub : NodupKeys b) where
  -- Between maps, `Dominates` holds exactly when no counter of the receiver is behind and some
  -- counter is ahead.
  pub dominates_iff : (dominates a b ≡ true) ↔ (Below b a × Ahead b a)
  dominates_iff = (
    λ h. (dominates-Below a b h, dominates-Ahead a b ua h),
    λ h. dominates_complete a b ua ub h.0 h.1,
  )
