-- ===== src/Prelude/Outcome.antt =====
-- Go's pair of a value and an error: one of the two.
use mathlib.Core.Path.{◌≡◌, refl}
use mathlib.Core.Bool.{Bool, true, false}

pub data Result (E A : Type 0) : Type 0 where
  err : E → Result E A
  ok : A → Result E A

module _ {E : Type 0} where
  -- `if !b { return err }`
  abbrev pub guard : Bool → E → Result E (Unit {0})
  guard false failure = err failure
  guard true failure = ok tt

  infixl 5 ◌>>=◌ ◌>>◌
  abbrev pub ◌>>=◌ : {A B : Type 0} → Result E A → (A → Result E B) → Result E B
  err failure >>= next = err failure
  ok value >>= next = next value

  abbrev pub ◌>>◌ : {B : Type 0} → Result E (Unit {0}) → Result E B → Result E B
  check >> rest = check >>= λ _. rest

  -- A chain that ends well began well.
  pub >>=-eq-ok :
      {A B : Type 0} {result : B} (start : Result E A) (next : A → Result E B)
      → (start >>= next) ≡ ok result
      → (value : A) × (start ≡ ok value) × (next value ≡ ok result)
  >>=-eq-ok (err failure) next ends = cc
  >>=-eq-ok (ok value) next ends = (value, refl, ends)

pub ok_inj : {E A : Type 0} {a b : A} → ◌≡◌ {A = Result E A} (ok a) (ok b) → a ≡ b
ok_inj h = cc
