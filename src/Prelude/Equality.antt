-- ===== src/Prelude/Equality.antt =====
-- Equality that a program can decide, and the bytes of a Go string.
use Prim.Native.Nat.{ℕ}
use Prim.Native.Char.{code}
use Prim.Native.String.{String}
use mathlib.Core.Path.{◌≡◌}
use mathlib.Core.Logic.{◌↔◌, ◌≢◌, ite, dite}
use mathlib.Core.Bool.{Bool, true, false, ◌&&◌, Bool-discrete}
use mathlib.Core.List.{List, [], ◌∷◌}
use native.Mathlib.Omega.{arith}
use native.Mathlib.Decide.{ℕ_discrete}
use binpass.Prelude.Tests.{nat_eqb}

pub record Eq {ℓ} (A : Type ℓ) : Type ℓ where
  pub dec : Discrete A

infix 50 ◌==◌
abbrev pub ◌==◌ {ℓ} : {A : Type ℓ} ⦃e : Eq A⦄ → A → A → Bool
◌==◌ ⦃e⦄ a b = ite (e.dec a b) true false

-- A Go string is its bytes.
abbrev pub Bytes : Type 0
Bytes = List ℕ

-- The bytes of an ASCII literal.
abbrev pub codes : String → Bytes
codes String.[] = []
codes (String.◌∷◌ c s) = code c ∷ codes s

pub bytes_eqb : Bytes → Bytes → Bool
bytes_eqb [] [] = true
bytes_eqb (x ∷ xs) (y ∷ ys) = nat_eqb x y && bytes_eqb xs ys
bytes_eqb _ _ = false

pub bytes_eqb_iff : (a b : Bytes) → (bytes_eqb a b ≡ true) ↔ (a ≡ b)
unfolding bytes_eqb
bytes_eqb_iff (x ∷ a) (y ∷ b) = ground (arith, bytes_eqb_iff a b)
bytes_eqb_iff _ _ = ground arith

-- Shut in proofs, where a split on `s == t` yields the equation or its negation.
instance unfoldable pub bytes_eq : Eq Bytes
unfolding bytes_eqb
bytes_eq = record {
  dec = λ s t.
      dite (Bool-discrete (bytes_eqb s t) true) (λ same. yes ((bytes_eqb_iff s t).0 same))
        (λ differ. no (λ p. differ ((bytes_eqb_iff s t).1 p)));
}

instance unfoldable pub nat_eq : Eq ℕ
unfolding ℕ_discrete
nat_eq = record { dec = ℕ_discrete }

pub ==-same : (a : Bytes) → (a == a) ≡ true
==-same a = ground arith

pub ==-other : (a b : Bytes) → a ≢ b → (a == b) ≡ false
==-other a b ne = ground arith

pub ==-eq : (a b : Bytes) → (a == b) ≡ true → a ≡ b
==-eq a b h = ground arith
