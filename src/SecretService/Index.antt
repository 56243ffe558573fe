-- ===== src/SecretService/Index.antt =====
-- pkg/secretservice/index.go: the index of items by blinded attributes.
pub mod Changes
pub mod Laws
use binpass.Prelude.{
  ℕ, suc, Bool, true, false, not, List, [], ◌∷◌, ◌++◌, Option, none, some, Bytes, ltb, ◌==◌,
  bytes_eq, if◌then◌else◌, length, contains,
}
use binpass.Prelude.Dict.{Dict, lookup, insert, erase}
use binpass.Text.{take}
use binpass.Sync.Merge.{bytes_ltb}
use binpass.SecretService.Item.{Item, insert_text, sort_texts}

-- `Entries` of an `Index`; its version is a constant of the program.
abbrev pub Index : Type 0
Index = Dict Bytes (List Bytes)

-- What `Blind` uses of crypto/hmac, crypto/sha256 and encoding/base32.
pub record Blinding : Type 0 where
  pub hmac : Bytes → Bytes → Bytes
  pub encode_base32 : Bytes → Bytes

abbrev pub or_nil : Option (List Bytes) → List Bytes
or_nil none = []
or_nil (some ids) = ids

-- The candidate sets, the smallest first.
pub insert_set : List Bytes → List (List Bytes) → List (List Bytes)
insert_set s [] = s ∷ []
insert_set s (t ∷ ts) =
    let rest = insert_set s ts in if ltb (length t) (length s) then t ∷ rest else s ∷ t ∷ ts

pub sort_sets : List (List Bytes) → List (List Bytes)
sort_sets [] = []
sort_sets (s ∷ ss) = insert_set s (sort_sets ss)

-- `intersect`
pub intersect : List Bytes → List Bytes → List Bytes
intersect [] b = []
intersect (x ∷ a) b = let rest = intersect a b in if contains b x then x ∷ rest else rest

pub intersect_all : List Bytes → List (List Bytes) → List Bytes
intersect_all out [] = sort_texts out
intersect_all out (s ∷ sets) = elim (intersect out s) [
  | [] ↦ []
  | x ∷ xs ↦ intersect_all (x ∷ xs) sets
]

pub intersect_sorted : List (List Bytes) → List Bytes
intersect_sorted [] = []
intersect_sorted (s ∷ sets) = intersect_all s sets

-- The identifiers other than one.
pub others : Bytes → List Bytes → List Bytes
others id [] = []
others id (x ∷ ids) = let rest = others id ids in if x == id then rest else x ∷ rest

-- An entry that is left with no identifier is deleted.
abbrev pub kept : Bytes → List Bytes → Index → Index
kept b [] ix = ix
kept b (x ∷ ids) ix = (b, x ∷ ids) ∷ ix

-- `Remove`
unfoldable pub remove : Bytes → Index → Index
unfolding others
remove id [] = []
remove id ((b, ids) ∷ ix) = kept b (others id ids) (remove id ix)

-- A set in front of the others; an empty one ends the search.
pub onto_sets : List Bytes → Option (List (List Bytes)) → Option (List (List Bytes))
onto_sets [] rest = none
onto_sets (x ∷ ids) none = none
onto_sets (x ∷ ids) (some sets) = some ((x ∷ ids) ∷ sets)

pub intersected : Option (List (List Bytes)) → List Bytes
intersected none = []
intersected (some sets) = intersect_sorted (sort_sets sets)

module _ (lib : Blinding) (index_key : Bytes) where
  -- `Blind`
  unfoldable pub blind : Bytes → Bytes → Bytes
  unfolding take
  blind name value = lib.encode_base32 (take 16 (lib.hmac index_key (name ++ 0 ∷ value)))

  add_id : Bytes → Bytes → Index → Index
  add_id b id ix =
      let ids = or_nil (lookup b ix) in
      if contains ids id then ix else insert b (sort_texts (ids ++ id ∷ [])) ix

  add_pairs : Dict Bytes Bytes → Bytes → Index → Index
  add_pairs [] id ix = ix
  add_pairs ((k, v) ∷ attrs) id ix = add_pairs attrs id (add_id (blind k v) id ix)

  -- `Add`
  unfoldable pub add : Item → Index → Index
  unfolding add_pairs add_id blind sort_texts insert_text
  add it ix = add_pairs it.attributes it.id ix

  -- The candidate set of every pair, none if one of them is empty.
  pub candidates : Index → Dict Bytes Bytes → Option (List (List Bytes))
  candidates ix [] = some []
  candidates ix ((k, v) ∷ query) = onto_sets (or_nil (lookup (blind k v) ix)) (candidates ix query)

  -- `Search`
  unfoldable pub search_index : Index → Dict Bytes Bytes → List Bytes
  unfolding candidates onto_sets intersected intersect_sorted intersect_all intersect sort_sets
      insert_set sort_texts insert_text blind
  search_index ix query = intersected (candidates ix query)
