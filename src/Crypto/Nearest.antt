-- ===== src/Crypto/Nearest.antt =====
-- findRecipientsFile of pkg/crypto/recipients.go: the walk ends, at the nearest file.
use binpass.Prelude.{
  ℕ, zero, suc, ◌<◌, ◌≤◌, Bool, true, false, ◌||◌, [], ◌∷◌, Option, none, some, Bytes, codes, ◌==◌,
  bytes_eq, nat_eqb, if◌then◌else◌, length, ◌≡◌, ◌≢◌, ◌⊎◌, refl, ap, arith, Bool-cases, inl, inr,
  ==-eq, ==-other,
}
use binpass.Prelude.Dict.{lookup}
use binpass.Text.{has_prefix, last_index, found_later, take}
use binpass.Storage.{Disk, dir_of, up_to}
use binpass.Crypto.{
  Walk, found, missing, spent, candidate, is_within, stepped, walk_up, find_recipients_file,
}

-- The directory `k` steps above.
abbrev pub above : ℕ → Bytes → Bytes
above zero dir = dir
above (suc k) dir = above k (dir_of dir)

-- A walk from a directory ended at the nearest file of a name, not above the root, or found that
-- none of the directories up to the root has one.
abbrev pub EndsNearest : Bytes → Bytes → Disk → Walk → Type 0
EndsNearest dir name d (found p) =
    (k : ℕ) × (p ≡ candidate (above k dir) name)
    × (lookup p d ≢ none)
    × ((j : ℕ)
        → j < k
        → (lookup (candidate (above j dir) name) d ≡ none) × ((above j dir == codes ".") ≡ false))
EndsNearest dir name d missing =
    (k : ℕ) × (above k dir ≡ codes ".")
    × ((j : ℕ) → j ≤ k → lookup (candidate (above j dir) name) d ≡ none)
EndsNearest dir name d spent = ⊥

-- The root is the lightest.
weight : Bytes → ℕ
weight dir = if dir == codes "." then 0 else suc (length dir)

later_length :
    (b c : ℕ) (s : Bytes) (i : ℕ) (o : Option ℕ)
    → ((j : ℕ) → o ≡ some j → suc (length (take j s)) ≤ length s)
    → found_later o (nat_eqb c b) ≡ some i
    → length (take i (c ∷ s)) ≤ length s
unfolding take
later_length b c s i none ih h = ground arith
later_length b c s zero (some j) ih h = omega arith
later_length b c s (suc i) (some j) ih h = ground (arith, ih j refl)

length-take-last_index :
    (b : ℕ) (s : Bytes) (i : ℕ) → last_index b s ≡ some i → suc (length (take i s)) ≤ length s
unfolding last_index
length-take-last_index b [] i h = cc
length-take-last_index b (c ∷ s) i h =
    omega (arith, later_length b c s i (last_index b s) (length-take-last_index b s) h)

weight-up_to :
    (dir : Bytes) (o : Option ℕ)
    → ((i : ℕ) → o ≡ some i → suc (length (take i dir)) ≤ length dir)
    → weight (up_to dir o) < suc (length dir)
unfolding weight bytes_eq
weight-up_to dir none h = omega arith
weight-up_to dir (some i) h = ground (arith, h i refl)

weight_other : (dir : Bytes) → (dir == codes ".") ≡ false → weight dir ≡ suc (length dir)
unfolding weight
weight_other dir ne = rw ne refl

weight_bound : (dir : Bytes) → weight dir ≤ suc (length dir)
unfolding weight
weight_bound dir = ground arith

at_zero :
    (dir name : Bytes) (d : Disk) (j : ℕ)
    → j ≤ 0
    → lookup (candidate dir name) d ≡ none
    → lookup (candidate (above j dir) name) d ≡ none
at_zero dir name d zero below h = h
at_zero dir name d (suc j) below h = absurd (omega arith)

weight-dir_of : (dir : Bytes) → (dir == codes ".") ≡ false → weight (dir_of dir) < weight dir
unfolding dir_of
weight-dir_of dir ne = rw ne (
    omega (
      arith,
      weight-up_to dir (last_index b'/' dir) (length-take-last_index b'/' dir),
      weight_other dir ne,
    ))

-- An end above a directory without the file is the directory's.
one_above :
    (dir name : Bytes) (d : Disk) (w : Walk)
    → lookup (candidate dir name) d ≡ none
    → (dir == codes ".") ≡ false
    → EndsNearest (dir_of dir) name d w
    → EndsNearest dir name d w
one_above dir name d (found p) here inner (k, at_k, there, before) =
    (suc k, at_k, there, λ j below. first_then j below)
  where
    first_then :
        (j : ℕ)
        → j < suc k
        → (lookup (candidate (above j dir) name) d ≡ none) × ((above j dir == codes ".") ≡ false)
    first_then zero below = (here, inner)
    first_then (suc j) below = before j (omega arith)
one_above dir name d missing here inner (k, at_k, before) =
    (suc k, at_k, λ j below. first_then j below)
  where
    first_then : (j : ℕ) → j ≤ suc k → lookup (candidate (above j dir) name) d ≡ none
    first_then zero below = here
    first_then (suc j) below = before j (omega arith)
one_above dir name d spent here inner ends = ends

stays-false : (dir : Bytes) → (dir == codes ".") ≡ false → (dir_of dir == dir) ≡ false
stays-false dir ne =
    ==-other (dir_of dir) dir (λ e. absurd (omega (arith, weight-dir_of dir ne, ap weight e)))

inner_first :
    (dir : Bytes) → (dir == codes "." || dir_of dir == dir) ≡ false → (dir == codes ".") ≡ false
inner_first dir h = ground arith

-- A round is the last at the root only.
last_round : (dir : Bytes) → (dir == codes "." || dir_of dir == dir) ≡ true → dir ≡ codes "."
last_round dir h = elim (Bool-cases (dir == codes ".")) [
  | inl root ↦ ==-eq dir (codes ".") root
  | inr inner ↦ (let moves = stays-false dir inner in absurd (ground arith))
]

stepped-EndsNearest :
    (dir name : Bytes) (d : Disk) (o : Option Bytes) (last : Bool) (higher : Walk)
    → lookup (candidate dir name) d ≡ o
    → (dir == codes "." || dir_of dir == dir) ≡ last
    → (last ≡ false → EndsNearest (dir_of dir) name d higher)
    → EndsNearest dir name d (stepped o last (candidate dir name) higher)
stepped-EndsNearest dir name d (some content) last higher here at rest =
    (zero, refl, (λ e. cc), λ j below. absurd (omega arith))
stepped-EndsNearest dir name d none true higher here at rest =
    (zero, last_round dir at, λ j below. at_zero dir name d j below here)
stepped-EndsNearest dir name d none false higher here at rest =
    one_above dir name d higher here (inner_first dir at) (rest refl)

walk_up-EndsNearest :
    (fuel : ℕ) (dir name : Bytes) (d : Disk)
    → weight dir < fuel
    → EndsNearest dir name d (walk_up fuel dir name d)
unfolding walk_up
walk_up-EndsNearest zero dir name d enough = absurd (omega arith)
walk_up-EndsNearest (suc fuel) dir name d enough =
    stepped-EndsNearest dir name d (lookup (candidate dir name) d)
      (dir == codes "." || dir_of dir == dir) (walk_up fuel (dir_of dir) name d) refl refl
      (λ inner.
        walk_up-EndsNearest fuel (dir_of dir) name d
          (omega (arith, weight-dir_of dir (inner_first dir inner))))

-- The walk from the root, or from a directory whose path does not begin with two dots, always ends,
-- by the nearest file of the name or after the root, and never for a lack of fuel.
pub find_recipients_file-EndsNearest :
    (dir name : Bytes) (d : Disk)
    → (dir ≡ codes ".") ⊎ (has_prefix dir (codes "..") ≡ false)
    → EndsNearest dir name d (find_recipients_file dir name d)
unfolding find_recipients_file is_within
find_recipients_file-EndsNearest dir name d inside =
    let within : is_within dir ≡ true = ground (arith, inside) in
    rw within
      (walk_up-EndsNearest (suc (suc (length dir))) dir name d (omega (arith, weight_bound dir)))
