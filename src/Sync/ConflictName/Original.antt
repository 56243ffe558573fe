-- ===== src/Sync/ConflictName/Original.antt =====
-- internal/cli/conflicts.go: the entry that a conflict file is taken for.
use binpass.Prelude.{
  ℕ, [], ◌∷◌, ◌++◌, none, some, Bytes, codes, length, ◌≡◌, refl, ◌∙◌, arith, append_assoc,
  append-nil,
}
use binpass.Text.{index, last_index, has_prefix, contains_text}
use binpass.Text.Laws.{Lacks, drop-append, has_prefix-append}
use binpass.Sync.Version.{DeviceId}
use binpass.Sync.ConflictName.{
  marker, infix_of, is_conflict_file, extension_behind, conflict_to_original,
}
use binpass.Sync.ConflictName.Laws.{Lacks-append, last_index_tail, take-append}

-- A text without the byte is a prefix of a text only if it ends before that byte.
has_prefix-Lacks : (b : ℕ) (s t p : Bytes) → Lacks b p → has_prefix (s ++ b ∷ t) p ≡ has_prefix s p
unfolding has_prefix
has_prefix-Lacks b s t [] h = refl
has_prefix-Lacks b [] t (c ∷ p) (ne, h) = ground arith
has_prefix-Lacks b (d ∷ s) t (c ∷ p) (ne, h) = ground (arith, has_prefix-Lacks b s t p h)

-- The first occurrence of a text whose first byte occurs in it once only.
index_tail :
    (b : ℕ) (p s t : Bytes)
    → Lacks b p
    → index s (b ∷ p) ≡ none
    → index (s ++ b ∷ (p ++ t)) (b ∷ p) ≡ some (length s)
unfolding index has_prefix
index_tail b p [] t h e = ground (arith, has_prefix-append p t)
index_tail b p (c ∷ s) t h e =
    ground (arith, has_prefix-Lacks b s (p ++ t) p h, index_tail b p s t h)

abbrev conflict_tail : Bytes
conflict_tail = codes "conflict-"

-- An entry's name that holds no conflict mark of its own.
abbrev pub IsPlain : Bytes → Type 0
IsPlain n = index n marker ≡ none

original_of :
    (n t : Bytes)
    → IsPlain n
    → conflict_to_original (n ++ (marker ++ t))
      ≡ n ++ extension_behind (marker ++ t) (last_index b'.' (marker ++ t))
unfolding conflict_to_original
original_of n t h =
    let found = index_tail b'.' conflict_tail n t (omega arith) h in
    rw (found, is_conflict_file, contains_text)
      (rw (take-append n (marker ++ t), drop-append n (marker ++ t)) refl)

plain_mark :
    (n t : Bytes) → IsPlain n → Lacks b'.' t → conflict_to_original (n ++ (marker ++ t)) ≡ n
plain_mark n t h k =
    let alone = Lacks-append b'.' conflict_tail t (omega arith) k in
    original_of n t h
    ∙ rw (last_index_tail b'.' [] (conflict_tail ++ t) alone)
        (unfold extension_behind in append-nil n)

dotted_mark :
    (n s e : Bytes)
    → IsPlain n
    → Lacks b'.' e
    → conflict_to_original (n ++ (marker ++ (s ++ b'.' ∷ e))) ≡ n ++ b'.' ∷ e
unfolding extension_behind
dotted_mark n s e h k =
    original_of n (s ++ b'.' ∷ e) h
    ∙ rw (last_index_tail b'.' (marker ++ s) e k) (ground (arith, drop-append s (b'.' ∷ e)))

-- The entry of a conflict file, whose name has lost its extension, is traced back to its original
-- if neither the device nor the timestamp has a dot.
pub conflict_to_original-infix_of :
    (n : Bytes) (device : DeviceId) (timestamp : Bytes)
    → IsPlain n
    → Lacks b'.' device
    → Lacks b'.' timestamp
    → conflict_to_original (n ++ infix_of device timestamp) ≡ n
unfolding infix_of
conflict_to_original-infix_of n device timestamp h d t =
    plain_mark n (device ++ b'-' ∷ timestamp) h
      (Lacks-append b'.' device (b'-' ∷ timestamp) d (omega arith, t))

-- A dot in the device's name is taken for the original's extension: all that follows its last dot
-- is appended to the name of the original.
pub conflict_to_original_dotted :
    (n host domain timestamp : Bytes)
    → IsPlain n
    → Lacks b'.' domain
    → Lacks b'.' timestamp
    → conflict_to_original (n ++ infix_of (host ++ b'.' ∷ domain) timestamp)
      ≡ n ++ b'.' ∷ (domain ++ b'-' ∷ timestamp)
unfolding infix_of
conflict_to_original_dotted n host domain timestamp h d t =
    rw (append_assoc host (b'.' ∷ domain) (b'-' ∷ timestamp)) (
      dotted_mark n host (domain ++ b'-' ∷ timestamp) h
        (Lacks-append b'.' domain (b'-' ∷ timestamp) d (omega arith, t)))
