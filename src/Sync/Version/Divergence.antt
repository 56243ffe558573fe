-- ===== src/Sync/Version/Divergence.antt =====
-- pkg/sync/version.go: `Diverges` against the causal order.
use binpass.Prelude.{
  true, false, some, ◌≡◌, ◌↔◌, ◌⊎◌, inl, inr, arith, bytes_eq, ltb, Option-cases, Bool-cases,
}
use binpass.Prelude.Dict.{lookup, NodupKeys}
use binpass.Sync.Version.{VersionVector, counter, equal, dominates_loop, dominates, diverges}
use binpass.Sync.Version.Order.{
  Below, equal_iff, equal_sound, dominates-Below, dominates_loop_total, none_missing_complete,
  dominates_loop_ahead,
}

dominates_loop-Below : (a b : VersionVector) → dominates_loop b a false ≡ some false → Below b a
dominates_loop-Below a b e id = elim (Option-cases (lookup id b)) [
  | inl absent ↦ rw absent (omega arith)
  | inr (c, found) ↦ elim (Bool-cases (ltb (counter a id) c)) [
    | inl more ↦ absurd (cc (dominates_loop_ahead b a false false id c e found (ground arith)))
    | inr less ↦ rw found (ground arith)
  ]
]

module _ (a b : VersionVector) (ua : NodupKeys a) (ub : NodupKeys b) where
  -- A history that contains another equals it or dominates it.
  pub Below-cases : Below a b → (equal a b ≡ true) ⊎ (dominates b a ≡ true)
  unfolding dominates
  Below-cases below =
      let (r, e) = dominates_loop_total b a false ub (λ j c found. rw found at (below j)) in
      let whole = none_missing_complete a b ua (λ j c found. rw found at (below j)) in
      elim (Bool-cases r) [
        | inl strict ↦ inr (ground (arith, e, whole))
        | inr flat ↦ inl (
            (equal_iff a b ua ub).1
              (λ id. omega (arith, below id, dominates_loop-Below a b (rw flat at e) id)))
      ]

pub equal_comm : (a b : VersionVector) → equal a b ≡ equal b a
unfolding equal
equal_comm a b = ground arith

diverges-¬Below :
    (a b : VersionVector) → NodupKeys a → NodupKeys b → diverges a b ≡ true → ¬ Below a b
unfolding diverges
diverges-¬Below a b ua ub h below = elim (Below-cases a b ua ub below) [
  | inl e ↦ ground arith
  | inr d ↦ ground arith
]

pub diverges_comm : (a b : VersionVector) → diverges a b ≡ diverges b a
unfolding diverges
diverges_comm a b = ground (arith, equal_comm a b)

module _ (a b : VersionVector) (ua : NodupKeys a) (ub : NodupKeys b) where
  -- Between maps, `Diverges` holds exactly when neither history contains the other.
  pub diverges_iff : (diverges a b ≡ true) ↔ (¬ Below a b × ¬ Below b a)
  unfolding diverges
  diverges_iff = (
    λ h. (diverges-¬Below a b ua ub h, diverges-¬Below b a ub ua (rw (diverges_comm b a) h)),
    λ (n, m). elim (Bool-cases (equal a b)) [
      | inl e ↦ absurd (n (λ id. omega (arith, equal_sound a b e id)))
      | inr e ↦ elim (Bool-cases (dominates a b)) [
        | inl d ↦ absurd (m (dominates-Below a b d))
        | inr d ↦ elim (Bool-cases (dominates b a)) [
          | inl d' ↦ absurd (n (dominates-Below b a d'))
          | inr d' ↦ ground arith
        ]
      ]
    ],
  )
