-- ===== src/Pwgen.antt =====
-- pkg/pwgen: character sets and generated passwords. A text is the list of its runes; the random
-- source is a parameter.
pub mod Set
pub mod Draws
use binpass.Prelude.{
  ℕ, zero, suc, ◌≤◌, Bool, true, false, not, ◌&&◌, ◌||◌, List, [], ◌∷◌, ◌++◌, Option, none, some,
  String, codes, leb, nat_eqb, ◌==◌, bytes_eq, nat_eq, if◌then◌else◌, length, contains, Result, ok,
  err, ◌>>=◌, ℤ, pos, negsuc,
}
use binpass.Prelude.Dict.{Dict, lookup}

abbrev pub Runes : Type 0
Runes = List ℕ

abbrev digits : String
digits = "0123456789"

abbrev uppers : String
uppers = "ABCDEFGHIJKLMNOPQRSTUVWXYZ"

abbrev lowers : String
lowers = "abcdefghijklmnopqrstuvwxyz"

-- `CharacterSet`
unfoldable pub character_set : Runes
character_set =
    codes
      "!\"#$%&'()*+,-./0123456789:;<=>?@ABCDEFGHIJKLMNOPQRSTUVWXYZ[\\]^_`abcdefghijklmnopqrstuvwxyz{|}~"

-- `posixClasses`
unfoldable pub posix_classes : Dict Runes Runes
unfolding character_set
posix_classes =
    (codes "alnum", codes digits ++ (codes uppers ++ codes lowers))
    ∷ (codes "alpha", codes uppers ++ codes lowers)
    ∷ (codes "digit", codes digits)
    ∷ (codes "lower", codes lowers)
    ∷ (codes "upper", codes uppers)
    ∷ (codes "punct", codes "!\"#$%&'()*+,-./:;<=>?@[\\]^_`{|}~")
    ∷ (codes "xdigit", codes "0123456789ABCDEFabcdef")
    ∷ (codes "graph", character_set)
    ∷ (codes "print", character_set ++ b' ' ∷ [])
    ∷ []

abbrev is_lower : ℕ → Bool
is_lower c = leb b'a' c && leb c b'z'

-- The letters in front of a text, and what is behind them.
unfoldable pub letters : Runes → Runes × Runes
letters [] = ([], [])
letters (c ∷ s) =
    let (name, rest) = letters s in if is_lower c then (c ∷ name, rest) else ([], c ∷ s)

-- The name of a class that is closed by `:]`, and what is behind it.
abbrev pub closed_class : Runes × Runes → Option (Runes × Runes)
closed_class (c ∷ name, x ∷ y ∷ rest) =
    if nat_eqb x b':' && nat_eqb y b']' then some (c ∷ name, rest) else none
closed_class (c ∷ name, x ∷ []) = none
closed_class (c ∷ name, []) = none
closed_class ([], rest) = none

-- `classPattern` at the front of a text.
unfoldable pub class_here : Runes → Option (Runes × Runes)
unfolding letters
class_here (x ∷ y ∷ s) = if nat_eqb x b'[' && nat_eqb y b':' then closed_class (letters s) else none
class_here (x ∷ []) = none
class_here [] = none

-- A match: what is in front of it, the name of the class, and what is behind it.
pub record Found : Type 0 where
  pub before : Runes
  pub name : Runes
  pub rest : Runes

abbrev pub or_after : ℕ → Option (Runes × Runes) → Option Found → Option Found
or_after c (some (name, rest)) later = some record { before = []; name = name; rest = rest }
or_after c none none = none
or_after c none (some f) = some (record f { before = c ∷ f.before })

-- `FindStringSubmatchIndex`: the leftmost match.
unfoldable pub find_class : Runes → Option Found
unfolding class_here
find_class [] = none
find_class (c ∷ s) = or_after c (class_here (c ∷ s)) (find_class s)

abbrev pub expansion : Option Runes → Runes
expansion none = []
expansion (some s) = s

abbrev pub in_front : Runes → Option Runes → Option Runes
in_front s none = none
in_front s (some t) = some (s ++ t)

-- The loop of `ExpandCharacterSet`; none says that the fuel ran out.
unfoldable pub expand_loop : ℕ → Runes → Option Runes
unfolding find_class posix_classes
expand_loop zero rest = none
expand_loop (suc fuel) rest = elim (find_class rest) [
  | none ↦ some rest
  | some f ↦
      in_front (f.before ++ expansion (lookup f.name posix_classes)) (expand_loop fuel f.rest)
]

-- The loop of `dedupe`, with the runes that it has seen.
unfoldable pub unseen : Runes → Runes → Runes
unseen seen [] = []
unseen seen (c ∷ s) =
    let rest = unseen seen s in
    let more = unseen (c ∷ seen) s in if contains seen c then rest else c ∷ more

-- `dedupe`
unfoldable pub dedupe : Runes → Runes
unfolding unseen
dedupe s = unseen [] s

abbrev pub deduped : Option Runes → Option Runes
deduped none = none
deduped (some s) = some (dedupe s)

-- `ExpandCharacterSet`
unfoldable pub expand_character_set : Runes → Option Runes
unfolding expand_loop dedupe
expand_character_set [] = some []
expand_character_set (c ∷ spec) = deduped (expand_loop (suc (length (c ∷ spec))) (c ∷ spec))

pub data PwgenError : Type 0 where
  not_positive empty_alphabet no_random : PwgenError

unfoldable pub get_elem? {ℓ} : {A : Type ℓ} → List A → ℕ → Option A
get_elem? [] i = none
get_elem? (c ∷ s) zero = some c
get_elem? (c ∷ s) (suc i) = get_elem? s i

-- What the random source gives at a moment for a bound; none is its error.
abbrev pub Random : Type 0
Random = ℕ → ℕ → Option ℕ

abbrev pub or_fail : {A : Type 0} → PwgenError → Option A → Result PwgenError A
or_fail e none = err e
or_fail e (some a) = ok a

-- The loops of `Generate` and `Passphrase`; an index out of range would be a panic, and counts as
-- none.
unfoldable pub draw_from : {A : Type 0} → Random → ℕ → List A → Result PwgenError (List A)
unfolding get_elem?
draw_from random zero alphabet = ok []
draw_from random (suc n) alphabet = do
  i ← or_fail no_random (random n (length alphabet))
  c ← or_fail no_random (get_elem? alphabet i)
  rest ← draw_from random n alphabet
  ok (c ∷ rest)

-- `Generate`
unfoldable pub generate : Random → ℤ → Runes → Result PwgenError Runes
unfolding draw_from
generate random (negsuc n) alphabet = err not_positive
generate random (pos zero) alphabet = err not_positive
generate random (pos (suc n)) [] = err empty_alphabet
generate random (pos (suc n)) (c ∷ alphabet) = draw_from random (suc n) (c ∷ alphabet)

-- `strings.Join`
unfoldable pub joined_by : Runes → List Runes → Runes
joined_by sep [] = []
joined_by sep (w ∷ []) = w
joined_by sep (w ∷ v ∷ words) = w ++ (sep ++ joined_by sep (v ∷ words))

-- `Passphrase`
unfoldable pub passphrase : Random → ℤ → List Runes → Runes → Result PwgenError Runes
unfolding draw_from joined_by
passphrase random (negsuc n) wordlist sep = err not_positive
passphrase random (pos zero) wordlist sep = err not_positive
passphrase random (pos (suc n)) [] sep = err empty_alphabet
passphrase random (pos (suc n)) (w ∷ wordlist) sep = do
  words ← draw_from random (suc n) (w ∷ wordlist)
  ok (joined_by sep words)
