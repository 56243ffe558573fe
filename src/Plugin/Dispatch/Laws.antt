-- ===== src/Plugin/Dispatch/Laws.antt =====
-- pkg/plugin/dispatch.go: which plugin a command runs.
use binpass.Prelude.{
  ℕ, zero, suc, ◌<◌, ◌≤◌, false, List, [], ◌∷◌, Option, none, some, Bytes, ◌≡◌, refl, sym, subst,
  ◌∙◌, ◌⊎◌, inl, inr, arith, ◌==◌, bytes_eq, if◌then◌else◌, contains, length, drop,
}
use binpass.Sync.Merge.Order.{bytes_ltb_irrefl}
use binpass.Plugin.Runtime.{Plugin}
use binpass.Plugin.Dispatch.{
  Source, Resolution, resolved_at, canonical, join_first, words, find_in, find, first_of_name,
  insert_plugin, sort_plugins, in_order, discover, resolve_from, resolve,
}

find_in-insert_plugin :
    (name : Bytes) (p : Plugin) (qs : List Plugin)
    → find_in name (insert_plugin p qs)
      ≡ (if p.manifest.name == name then some p else find_in name qs)
unfolding find_in insert_plugin
find_in-insert_plugin name p [] = refl
find_in-insert_plugin name p (q ∷ qs) =
    ground (arith, find_in-insert_plugin name p qs, bytes_ltb_irrefl name)

-- Sorting changes no search by name.
find_in-sort_plugins :
    (name : Bytes) (ps : List Plugin) → find_in name (sort_plugins ps) ≡ find_in name ps
unfolding sort_plugins find_in
find_in-sort_plugins name [] = refl
find_in-sort_plugins name (p ∷ ps) =
    ground (arith, find_in-insert_plugin name p (sort_plugins ps), find_in-sort_plugins name ps)

-- Leaving out repeated names changes no search for a name that is not left out.
find_in-first_of_name :
    (name : Bytes) (seen : List Bytes) (ps : List Plugin)
    → contains seen name ≡ false
    → find_in name (first_of_name seen ps) ≡ find_in name ps
unfolding first_of_name find_in
find_in-first_of_name name seen [] fresh = refl
find_in-first_of_name name seen (p ∷ ps) fresh = ground (
  arith,
  find_in-first_of_name name seen ps,
  find_in-first_of_name name (p.manifest.name ∷ seen) ps,
)

leq_split : (n k : ℕ) → n ≤ suc k → (n ≤ k) ⊎ (n ≡ suc k)
leq_split n k high = omega arith

-- A plugin is found as the first of its name in the order of precedence.
pub find-in_order : (s : Source) (name : Bytes) → find s name ≡ find_in name (in_order s)
unfolding find discover
find-in_order s name =
    find_in-sort_plugins name (first_of_name [] (in_order s))
    ∙ find_in-first_of_name name [] (in_order s) refl

-- The plugin of the first `n` words.
abbrev pub named : Source → List Bytes → ℕ → Option Plugin
named s args n = find_in (canonical (join_first b'-' n (words args))) (in_order s)

-- What an answer to a command says, where the first `k` words or fewer are looked at.
abbrev pub Answers : Source → List Bytes → ℕ → Option Resolution → Type 0
Answers s args k none = (n : ℕ) → 1 ≤ n → n ≤ k → named s args n ≡ none
Answers s args k (some r) =
    (n : ℕ) × (1 ≤ n)
    × (n ≤ k)
    × (named s args n ≡ some r.plugin)
    × (r.args ≡ drop n args)
    × (r.command ≡ join_first b' ' n args)
    × ((m : ℕ) → n < m → m ≤ k → named s args m ≡ none)

-- A number of words under which nothing is found changes no answer.
one_more :
    (s : Source) (args : List Bytes) (k : ℕ) (r : Option Resolution)
    → named s args (suc k) ≡ none
    → Answers s args k r
    → Answers s args (suc k) r
one_more s args k none missing answer = λ n low high. elim (leq_split n k high) [
  | inl below ↦ answer n low below
  | inr last ↦ subst (λ i. named s args i ≡ none) (sym last) missing
]
one_more s args k (some r) missing (n, low, high, found, rest, command, longest) = (
  n,
  low,
  omega arith,
  found,
  rest,
  command,
  λ m above high. elim (leq_split m k high) [
    | inl below ↦ longest m above below
    | inr last ↦ subst (λ i. named s args i ≡ none) (sym last) missing
  ],
)

resolved_at-Answers :
    (s : Source) (args : List Bytes) (k : ℕ) (rest : Option Resolution) (found : Option Plugin)
    → named s args (suc k) ≡ found
    → Answers s args k rest
    → Answers s args (suc k) (resolved_at args (suc k) rest found)
resolved_at-Answers s args k rest none missing answer = one_more s args k rest missing answer
resolved_at-Answers s args k rest (some p) found answer =
    (suc k, omega arith, omega arith, found, refl, refl, λ m above high. absurd (omega arith))

resolve_from-Answers :
    (s : Source) (args : List Bytes) (k : ℕ) → Answers s args k (resolve_from s args k)
unfolding resolve_from
resolve_from-Answers s args zero = λ n low high. absurd (omega arith)
resolve_from-Answers s args (suc k) =
    let at = canonical (join_first b'-' (suc k) (words args)) in
    resolved_at-Answers s args k (resolve_from s args k) (find s at) (sym (find-in_order s at))
      (resolve_from-Answers s args k)

module _ (s : Source) (args : List Bytes) where
  -- A command is resolved to the longest of its leading words without a flag that name a plugin,
  -- and the plugin is given the arguments behind those words; it is the first of that name in the
  -- order of precedence, managed plugins before the files on PATH. If no plugin is found, then no
  -- number of those words names one.
  pub resolve-Answers : Answers s args (length (words args)) (resolve s args)
  unfolding resolve
  resolve-Answers = resolve_from-Answers s args (length (words args))
