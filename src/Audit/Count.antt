-- ===== src/Audit/Count.antt =====
-- Counting names, for the sums of a report.
use binpass.Prelude.{
  ℕ, suc, ◌+◌, ◌≤◌, true, List, [], ◌∷◌, Bytes, ◌==◌, bytes_eq, if◌then◌else◌, length, contains,
  ◌≡◌, arith, ==-same,
}

-- How often a name occurs.
unfoldable pub count : Bytes → List Bytes → ℕ
count x [] = 0
count x (y ∷ ys) = let rest = count x ys in if x == y then suc rest else rest

-- A list without the first occurrence of a name.
remove_one : Bytes → List Bytes → List Bytes
remove_one x [] = []
remove_one x (y ∷ ys) = let rest = remove_one x ys in if x == y then ys else y ∷ rest

length-remove_one :
    (x : Bytes) (ys : List Bytes) → 1 ≤ count x ys → suc (length (remove_one x ys)) ≡ length ys
unfolding count remove_one
length-remove_one x [] h = absurd (omega arith)
length-remove_one x (y ∷ ys) h = ground (arith, length-remove_one x ys)

count-remove_one :
    (x z : Bytes) (ys : List Bytes)
    → count z ys ≤ count z (remove_one x ys) + (if z == x then 1 else 0)
unfolding count remove_one
count-remove_one x z [] = omega arith
count-remove_one x z (y ∷ ys) = ground (arith, count-remove_one x z ys)

-- A list whose names all occur at least as often in another is no longer.
pub length-le_of_count :
    (xs ys : List Bytes) → ((x : Bytes) → count x xs ≤ count x ys) → length xs ≤ length ys
unfolding count
length-le_of_count [] ys h = omega arith
length-le_of_count (x ∷ xs) ys h =
    let once : 1 ≤ count x ys = ground (arith, h x, ==-same x) in
    omega (
      arith,
      length-remove_one x ys once,
      length-le_of_count xs (remove_one x ys) (λ z. ground (arith, h z, count-remove_one x z ys)),
    )

pub count_of_contains : (x : Bytes) (ys : List Bytes) → contains ys x ≡ true → 1 ≤ count x ys
unfolding count
count_of_contains x [] h = cc
count_of_contains x (y ∷ ys) h = ground (arith, count_of_contains x ys)
