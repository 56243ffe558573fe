-- ===== src/SecretService/Store/Parts.antt =====
-- pkg/secretservice/store.go: what the store works with, the names of its entries, and its lists of
-- items.
use binpass.Prelude.{
  ℕ, suc, ◌+◌, ◌/◌, ◌%◌, Bool, not, ◌||◌, List, [], ◌∷◌, ◌++◌, Option, none, some, Bytes, codes,
  ltb, nat_eqb, ◌==◌, bytes_eq, if◌then◌else◌, length, drop, contains, Result, ok, err,
}
use binpass.Prelude.Dict.{Dict}
use binpass.Text.{trim_prefix, cut, last_index}
use binpass.Paths.{clean}
use binpass.Secret.{Secret}
use binpass.Sync.Merge.{bytes_ltb}
use binpass.SecretService.Item.{Item, item_from_secret, matches_query}
use binpass.SecretService.Index.{Index, Blinding}

-- `PassStore`, an interface, over the files `W` of a store.
pub record PassStore (W : Type 0) : Type 0 where
  pub get : Bytes → W → Option Secret
  pub set : Bytes → Secret → W → Option W
  pub listing : Bytes → W → Option (List Bytes)
  pub delete : Bytes → W → Option W
  pub has_entry : Bytes → W → Bool

-- What encoding/json does to an index.
pub record IndexJson : Type 0 where
  pub encode : Index → Option Bytes
  pub decode : Bytes → Option Index

-- `Store`, with the files that it is over.
pub record Service (W : Type 0) : Type 0 where
  pub world : W
  pub cached : Option Index

pub data ServiceError : Type 0 where
  not_found locked unreadable no_random not_stored not_encoded : ServiceError

-- An operation gives its result and leaves a state behind; an error undoes nothing.
abbrev pub Run : Type 0 → Type 0 → Type 0
Run W A = Service W → Result ServiceError A × Service W

abbrev pub bound :
    {W A B : Type 0}
    → Result ServiceError A × Service W
    → (A → Run W B)
    → Result ServiceError B × Service W
bound (err e, s) next = (err e, s)
bound (ok a, s) next = next a s

module _ {W : Type 0} where
  infixl 5 ◌>>=◌
  abbrev pub ◌>>=◌ : {A B : Type 0} → Run W A → (A → Run W B) → Run W B
  ◌>>=◌ m next s = bound (m s) next

  abbrev pub return : {A : Type 0} → A → Run W A
  return a s = (ok a, s)

  abbrev pub fail : {A : Type 0} → ServiceError → Run W A
  fail e s = (err e, s)

-- `Root`
abbrev pub root : Bytes
root = codes "secret-service"

-- A component of `path.Join`, which leaves empty ones out.
abbrev pub slashed : Bytes → Bytes
slashed [] = []
slashed (c ∷ s) = b'/' ∷ c ∷ s

-- `itemPath`
unfoldable pub item_path : Bytes → Bytes → Bytes
unfolding clean
item_path collection id = clean (root ++ (slashed collection ++ slashed id))

-- The entry of the index.
unfoldable pub index_path : Bytes
unfolding item_path
index_path = item_path [] (codes ".index")

-- `NewStore`: the key of the index.
unfoldable pub derived_key : Blinding → Bytes → Bytes
derived_key lib seed = lib.hmac seed (codes "binpass secret-service attribute index v1")

-- `path.Base` of the name of an entry.
abbrev pub base_at : Bytes → Option ℕ → Bytes
base_at e none = e
base_at e (some i) = drop (suc i) e

unfoldable pub base : Bytes → Bytes
unfolding last_index
base e = base_at e (last_index b'/' e)

abbrev pub hex_digit : ℕ → ℕ
hex_digit n = if ltb n 10 then n + b'0' else n + 87

-- `newID`, of the bytes that were drawn.
unfoldable pub new_id : Bytes → Bytes
new_id [] = []
new_id (b ∷ bs) = hex_digit (b / 16) ∷ hex_digit (b % 16) ∷ new_id bs

-- The collection of an entry, where it has one.
abbrev pub collection_of : Bytes × Bytes × Bool → Option Bytes
collection_of (name, _, found) = if not found || name == [] then none else some name

abbrev pub add_name : Option Bytes → List Bytes → List Bytes
add_name none seen = seen
add_name (some name) seen = if contains seen name then seen else seen ++ name ∷ []

unfoldable pub collection_names : List Bytes → List Bytes → List Bytes
unfolding cut trim_prefix
collection_names seen [] = seen
collection_names seen (e ∷ entries) =
    collection_names (add_name (collection_of (cut b'/' (trim_prefix e (root ++ b'/' ∷ [])))) seen)
      entries

-- `sort.Slice`, by the identifier.
unfoldable pub insert_item : Item → List Item → List Item
insert_item it [] = it ∷ []
insert_item it (other ∷ items) =
    let rest = insert_item it items in
    if bytes_ltb other.id it.id then other ∷ rest else it ∷ other ∷ items

abbrev pub as_item : Bytes → Option Secret → Option Item
as_item id none = none
as_item id (some sec) = some (item_from_secret id sec)

-- An read_item, unless it is missing or its name begins with a dot.
abbrev pub kept_item : Bool → Option Item → List Item → List Item
kept_item hidden none items = items
kept_item hidden (some it) items = if hidden then items else insert_item it items

-- An read_item, if it was read and has every pair of a query.
abbrev pub confirmed : Dict Bytes Bytes → Option Item → List Item → List Item
confirmed query none items = items
confirmed query (some it) items = if matches_query it query then it ∷ items else items

-- The first item with a number of attributes.
unfoldable pub with_length : ℕ → List Item → Option Item
with_length n [] = none
with_length n (it ∷ items) =
    let rest = with_length n items in if nat_eqb (length it.attributes) n then some it else rest

-- A collection that cannot be listed is empty.
abbrev pub entries_or_none : Option (List Bytes) → List Bytes
entries_or_none none = []
entries_or_none (some entries) = entries

abbrev pub or_fail : {W A : Type 0} → ServiceError → Option A → Run W A
or_fail e none = fail e
or_fail e (some a) = return a
