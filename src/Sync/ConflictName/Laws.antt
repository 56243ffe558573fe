-- ===== src/Sync/ConflictName/Laws.antt =====
-- pkg/sync/merge.go and internal/cli/conflicts.go: where a conflict file lies, and which entry it
-- is taken for.
use Prim.Native.Nat.add
use binpass.Prelude.{
  ℕ, suc, ◌+◌, false, [], ◌∷◌, ◌++◌, Option, none, some, Bytes, ltb, drop, length, ◌≡◌, ◌≢◌, inl,
  inr, refl, ap, arith, append_assoc, append-nil, Option-cases, ◌<◌, ltb_iff, zero, length-append,
}
use binpass.Text.{last_index, take}
use binpass.Text.Laws.{Lacks}
use binpass.Sync.Version.{DeviceId}
use binpass.Sync.State.{FilePath}
use binpass.Sync.ConflictName.{name_safe, marker, infix_of, name_at, conflict_name}

pub Lacks-append : (b : ℕ) (s t : Bytes) → Lacks b s → Lacks b t → Lacks b (s ++ t)
Lacks-append b [] t h k = k
Lacks-append b (c ∷ s) t (ne, h) k = (ne, Lacks-append b s t h k)

-- A text without the byte has no last index of it.
pub last_index-none : (b : ℕ) (s : Bytes) → Lacks b s → last_index b s ≡ none
unfolding last_index
last_index-none b [] h = refl
last_index-none b (c ∷ s) (ne, h) = ground (arith, last_index-none b s h)

pub last_index_tail :
    (b : ℕ) (s t : Bytes) → Lacks b t → last_index b (s ++ b ∷ t) ≡ some (length s)
unfolding last_index
last_index_tail b [] t h = ground (arith, last_index-none b t h)
last_index_tail b (c ∷ s) t h = ground (arith, last_index_tail b s t h)

pub take-append : (s t : Bytes) → take (length s) (s ++ t) ≡ s
unfolding take
take-append [] t = refl
take-append (c ∷ s) t = ap (◌∷◌ c) (take-append s t)

name_safe-Lacks : (s : Bytes) → Lacks b'/' (name_safe s)
unfolding name_safe
name_safe-Lacks [] = tt
name_safe-Lacks (c ∷ s) = ground (arith, name_safe-Lacks s)

-- The last index in a text of two parts, from those in the second and in the first.
abbrev behind : Option ℕ → ℕ → Option ℕ → Option ℕ
behind (some k) n first = some (n + k)
behind none n first = first

last_index-append :
    (b : ℕ) (s t : Bytes)
    → last_index b (s ++ t) ≡ behind (last_index b t) (length s) (last_index b s)
unfolding last_index
last_index-append b [] t = ground arith
last_index-append b (c ∷ s) t = ground (arith, last_index-append b s t)

last_index-lt : (b : ℕ) (s : Bytes) (i : ℕ) → last_index b s ≡ some i → i < length s
unfolding last_index
last_index-lt b [] i e = cc
last_index-lt b (c ∷ s) i e = elim (Option-cases (last_index b s)) [
  | inl absent ↦ ground arith
  | inr (j, found) ↦ ground (arith, last_index-lt b s j found)
]

take_past : (s t : Bytes) (k : ℕ) → take (length s + k) (s ++ t) ≡ s ++ take k t
unfolding take
take_past [] t k = ground arith
take_past (c ∷ s) t k = rw add.suc (ap (◌∷◌ c) (take_past s t k))

drop_past : (s t : Bytes) (k : ℕ) → drop (length s + k) (s ++ t) ≡ drop k t
drop_past [] t k = ground arith
drop_past (c ∷ s) t k = rw add.suc (drop_past s t k)

marker-Lacks : Lacks b'/' marker
marker-Lacks = omega arith

infix_of-Lacks :
    (device : DeviceId) (timestamp : Bytes)
    → Lacks b'/' (infix_of (name_safe device) (name_safe timestamp))
unfolding infix_of
infix_of-Lacks device timestamp = Lacks-append b'/' marker _ marker-Lacks (
    Lacks-append b'/' (name_safe device) _ (name_safe-Lacks device)
      (omega arith, name_safe-Lacks timestamp))

-- The path of a file `base` in the directory `dir`.
abbrev pub within : Bytes → Bytes → Bytes
within dir base = dir ++ (b'/' ∷ base)

take-Lacks : (b n : ℕ) (s : Bytes) → Lacks b s → Lacks b (take n s)
unfolding take
take-Lacks b zero s h = tt
take-Lacks b (suc n) [] h = tt
take-Lacks b (suc n) (c ∷ s) (ne, h) = (ne, take-Lacks b n s h)

drop-Lacks : (b n : ℕ) (s : Bytes) → Lacks b s → Lacks b (drop n s)
drop-Lacks b zero s h = h
drop-Lacks b (suc n) [] h = tt
drop-Lacks b (suc n) (c ∷ s) (ne, h) = drop-Lacks b n s h

name_at_base :
    (base : Bytes) (dot : Option ℕ) (mark : Bytes)
    → Lacks b'/' base
    → Lacks b'/' mark
    → Lacks b'/' (name_at base none dot mark)
unfolding name_at
name_at_base base none mark h k = Lacks-append b'/' base mark h k
name_at_base base (some i) mark h k =
    Lacks-append b'/' _ _ (take-Lacks b'/' i base h)
      (Lacks-append b'/' mark _ k (drop-Lacks b'/' i base h))

not_before : (n k : ℕ) → ltb (n + suc k) n ≡ false
not_before n k = ground arith

-- A dot in the base is found there; one before the slash is no extension's.
name_at_dotted :
    (dir base mark : Bytes) (k : ℕ)
    → name_at (within dir base) (some (length dir)) (some (length dir + suc k)) mark
      ≡ within dir (take k base ++ (mark ++ drop k base))
unfolding name_at take
name_at_dotted dir base mark k =
    rw
      (
        not_before (length dir) k,
        take_past dir (b'/' ∷ base) (suc k),
        drop_past dir (b'/' ∷ base) (suc k),
      )
      (append_assoc dir _ _)

name_at_dotless :
    (dir base mark : Bytes)
    → name_at (within dir base) (some (length dir)) (last_index b'.' dir) mark
      ≡ within dir (base ++ mark)
unfolding name_at
name_at_dotless dir base mark = elim (Option-cases (last_index b'.' dir)) [
  | inl absent ↦ rw absent (append_assoc dir _ mark)
  | inr (j, found) ↦
      rw (found, (ltb_iff j (length dir)).1 (last_index-lt b'.' dir j found))
        (append_assoc dir _ mark)
]

name_at-within :
    (dir base mark : Bytes)
    → Lacks b'/' base
    → name_at
        (within dir base)
        (last_index b'/' (within dir base))
        (last_index b'.' (within dir base))
        mark
      ≡ within dir (name_at base (last_index b'/' base) (last_index b'.' base) mark)
unfolding name_at last_index
name_at-within dir base mark h =
    rw
      (
        last_index_tail b'/' dir base h,
        last_index-none b'/' base h,
        last_index-append b'.' dir (b'/' ∷ base),
      )
      (elim (Option-cases (last_index b'.' base)) [
        | inl absent ↦ rw absent (name_at_dotless dir base mark)
        | inr (k, found) ↦ rw found (name_at_dotted dir base mark k)
      ])

-- A conflict file lies in the directory of its original, whatever the device and the timestamp
-- are: the directory's name stays, and no slash is added behind it.
pub conflict_name-within :
    (dir base : Bytes) (device : DeviceId) (timestamp : Bytes)
    → Lacks b'/' base
    → (conflict_name (within dir base) device timestamp
        ≡ within dir (conflict_name base device timestamp))
      × Lacks b'/' (conflict_name base device timestamp)
unfolding conflict_name
conflict_name-within dir base device timestamp h = (
  name_at-within dir base (infix_of (name_safe device) (name_safe timestamp)) h,
  rw (last_index-none b'/' base h)
      (name_at_base base (last_index b'.' base) _ h (infix_of-Lacks device timestamp)),
)

length-take-drop :
    (n : ℕ) (s t : Bytes) → length (take n s ++ (t ++ drop n s)) ≡ length s + length t
unfolding take
length-take-drop zero s t = rw (length-append t s) (omega arith)
length-take-drop (suc n) [] t = rw append-nil (omega arith)
length-take-drop (suc n) (c ∷ s) t = omega (arith, length-take-drop n s t)

length-name_at :
    (path : FilePath) (slash dot : Option ℕ) (mark : Bytes)
    → length (name_at path slash dot mark) ≡ length path + length mark
unfolding name_at
length-name_at path slash none mark = length-append path mark
length-name_at path slash (some dot) mark =
    ground (arith, length-append path mark, length-take-drop dot path mark)

-- A conflict file never takes the place of its original.
pub conflict_name-ne :
    (path : FilePath) (device : DeviceId) (timestamp : Bytes)
    → conflict_name path device timestamp ≢ path
unfolding conflict_name infix_of
conflict_name-ne path device timestamp e = absurd (
    omega (
      arith,
      ap length e,
      length-name_at path (last_index b'/' path) (last_index b'.' path)
          (infix_of (name_safe device) (name_safe timestamp)),
    ))
