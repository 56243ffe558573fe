-- ===== src/SecretService/Index/Laws.antt =====
-- pkg/secretservice/index.go: a search finds the items that carry every pair, and no other.
use binpass.Prelude.{
  ℕ, suc, Bool, true, false, ◌&&◌, ◌||◌, List, [], ◌∷◌, Option, none, some, Bytes, ltb, ◌==◌,
  bytes_eq, length, contains, ◌≡◌, ◌⊎◌, inl, inr, refl, ap, ◌∙◌, arith, Bool-cases,
}
use binpass.Prelude.Dict.{Dict, lookup}
use binpass.SecretService.Index.{
  Index, Blinding, or_nil, insert_set, sort_sets, intersect, intersect_all, intersect_sorted, blind,
  candidates, intersected, onto_sets, search_index,
}
use binpass.SecretService.Item.{insert_text, sort_texts}

-- The query has a pair.
abbrev pub has_pair : Dict Bytes Bytes → Bool
has_pair [] = false
has_pair (_ ∷ _) = true

-- The identifier is in every set.
in_all : List (List Bytes) → Bytes → Bool
in_all [] id = true
in_all (s ∷ sets) id = contains s id && in_all sets id

contains-insert_text :
    (s : Bytes) (ts : List Bytes) (id : Bytes)
    → contains (insert_text s ts) id ≡ (id == s || contains ts id)
unfolding insert_text
contains-insert_text s [] id = refl
contains-insert_text s (t ∷ ts) id = ground (arith, contains-insert_text s ts id)

pub contains-sort_texts :
    (ts : List Bytes) (id : Bytes) → contains (sort_texts ts) id ≡ contains ts id
unfolding sort_texts
contains-sort_texts [] id = refl
contains-sort_texts (t ∷ ts) id =
    contains-insert_text t (sort_texts ts) id ∙ ap (◌||◌ (id == t)) (contains-sort_texts ts id)

in_all-insert_set :
    (s : List Bytes) (ts : List (List Bytes)) (id : Bytes)
    → in_all (insert_set s ts) id ≡ (contains s id && in_all ts id)
unfolding insert_set in_all
in_all-insert_set s [] id = refl
in_all-insert_set s (t ∷ ts) id = ground (arith, in_all-insert_set s ts id)

in_all-sort_sets :
    (sets : List (List Bytes)) (id : Bytes) → in_all (sort_sets sets) id ≡ in_all sets id
unfolding sort_sets in_all
in_all-sort_sets [] id = refl
in_all-sort_sets (s ∷ sets) id =
    in_all-insert_set s (sort_sets sets) id ∙ ap (◌&&◌ (contains s id)) (in_all-sort_sets sets id)

contains-intersect :
    (a b : List Bytes) (id : Bytes) → contains (intersect a b) id ≡ (contains a id && contains b id)
unfolding intersect
contains-intersect [] b id = refl
contains-intersect (x ∷ a) b id = ground (arith, contains-intersect a b id)

met_then :
    (met : List Bytes) (sets : List (List Bytes)) (id : Bytes)
    → ((x : Bytes) (xs : List Bytes)
        → contains (intersect_all (x ∷ xs) sets) id ≡ (contains (x ∷ xs) id && in_all sets id))
    → contains (elim met [ [] ↦ [] | x ∷ xs ↦ intersect_all (x ∷ xs) sets ]) id
      ≡ (contains met id && in_all sets id)
met_then [] sets id h = refl
met_then (x ∷ xs) sets id h = h x xs

contains-intersect_all :
    (out : List Bytes) (sets : List (List Bytes)) (id : Bytes)
    → contains (intersect_all out sets) id ≡ (contains out id && in_all sets id)
unfolding intersect_all in_all
contains-intersect_all out [] id = ground (arith, contains-sort_texts out id)
contains-intersect_all out (s ∷ sets) id =
    met_then (intersect out s) sets id (λ x xs. contains-intersect_all (x ∷ xs) sets id)
    ∙ ground (arith, contains-intersect out s id)

-- Some set is there.
IsNonEmpty : List (List Bytes) → Type 0
IsNonEmpty [] = ⊥
IsNonEmpty (_ ∷ _) = Unit

insert_set-IsNonEmpty : (s : List Bytes) (ts : List (List Bytes)) → IsNonEmpty (insert_set s ts)
unfolding insert_set IsNonEmpty
insert_set-IsNonEmpty s [] = tt
insert_set-IsNonEmpty s (t ∷ ts) = elim (Bool-cases (ltb (length t) (length s))) [
  | inl less ↦ rw less tt
  | inr more ↦ rw more tt
]

sorted_nonempty :
    (sets : List (List Bytes)) (id : Bytes)
    → IsNonEmpty sets
    → contains (intersect_sorted sets) id ≡ in_all sets id
unfolding intersect_sorted in_all IsNonEmpty
sorted_nonempty [] id h = absurd h
sorted_nonempty (s ∷ sets) id h = contains-intersect_all s sets id

contains-intersect_sorted :
    (s : List Bytes) (sets : List (List Bytes)) (id : Bytes)
    → contains (intersect_sorted (sort_sets (s ∷ sets))) id ≡ in_all (s ∷ sets) id
unfolding sort_sets insert_set
contains-intersect_sorted s sets id =
    sorted_nonempty (sort_sets (s ∷ sets)) id (insert_set-IsNonEmpty s (sort_sets sets))
    ∙ in_all-sort_sets (s ∷ sets) id

onto_cases :
    (ids : List Bytes) (rest : Option (List (List Bytes))) (all : Bool) (id : Bytes) (n : ℕ)
    → ((rest ≡ none) × (all ≡ false))
      ⊎ ((sets : List (List Bytes)) × (rest ≡ some sets)
          × (in_all sets id ≡ all)
          × (length sets ≡ n))
    → ((onto_sets ids rest ≡ none) × ((contains ids id && all) ≡ false))
      ⊎ ((sets : List (List Bytes)) × (onto_sets ids rest ≡ some sets)
          × (in_all sets id ≡ (contains ids id && all))
          × (length sets ≡ suc n))
unfolding onto_sets in_all
onto_cases [] rest all id n h = inl (refl, refl)
onto_cases (x ∷ ids) rest all id n (inl (e, f)) = inl (rw e refl, ground arith)
onto_cases (x ∷ ids) rest all id n (inr (sets, e, f, g)) =
    inr ((x ∷ ids) ∷ sets, rw e refl, ap (◌&&◌ (contains (x ∷ ids) id)) f, omega (arith, g))

module _ (lib : Blinding) (index_key : Bytes) where
  -- The index has the identifier under every pair.
  unfoldable pub carried : Index → Dict Bytes Bytes → Bytes → Bool
  carried ix [] id = true
  carried ix ((k, v) ∷ query) id =
      contains (or_nil (lookup (blind lib index_key k v) ix)) id && carried ix query id

  candidates-in_all :
      (ix : Index) (query : Dict Bytes Bytes) (id : Bytes)
      → ((candidates lib index_key ix query ≡ none) × (carried ix query id ≡ false))
        ⊎ ((sets : List (List Bytes)) × (candidates lib index_key ix query ≡ some sets)
            × (in_all sets id ≡ carried ix query id)
            × (length sets ≡ length query))
  unfolding candidates carried in_all onto_sets
  candidates-in_all ix [] id = inr ([], refl, refl, refl)
  candidates-in_all ix ((k, v) ∷ query) id =
      onto_cases (or_nil (lookup (blind lib index_key k v) ix)) (candidates lib index_key ix query)
        (carried ix query id) id (length query) (candidates-in_all ix query id)

  some_sets :
      (ix : Index) (id : Bytes) (sets : List (List Bytes)) (query : Dict Bytes Bytes)
      → in_all sets id ≡ carried ix query id
      → length sets ≡ length query
      → contains (intersect_sorted (sort_sets sets)) id ≡ (has_pair query && carried ix query id)
  unfolding intersect_sorted sort_sets
  some_sets ix id [] [] all n = refl
  some_sets ix id [] (_ ∷ _) all n = ground arith
  some_sets ix id (_ ∷ _) [] all n = ground arith
  some_sets ix id (s ∷ sets) (_ ∷ _) all n = contains-intersect_sorted s sets id ∙ all

  -- A search finds the items that the index has under every pair of the query; an empty query finds
  -- none.
  pub contains-search_index :
      (ix : Index) (query : Dict Bytes Bytes) (id : Bytes)
      → contains (search_index lib index_key ix query) id ≡ (has_pair query && carried ix query id)
  unfolding search_index intersected
  contains-search_index ix query id = elim (candidates-in_all ix query id) [
    | inl (absent, uncarried) ↦ rw absent (ground (arith, uncarried))
    | inr (sets, found, all, n) ↦ rw found (some_sets ix id sets query all n)
  ]
