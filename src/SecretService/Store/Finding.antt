-- ===== src/SecretService/Store/Finding.antt =====
-- pkg/secretservice/store.go: what the store and the encoding of the index are to do, and what a
-- search finds.
use binpass.Prelude.{
  true, false, List, [], ◌∷◌, ◌++◌, Option, none, some, Bytes, ◌≡◌, ◌≢◌, refl, ◌∙◌, subst, arith,
  ◌==◌, bytes_eq, if◌then◌else◌, contains, All, ok, Bool-cases, ==-same, ==-eq, inl, inr,
}
use binpass.Prelude.Dict.{Dict, lookup}
use binpass.Paths.{rel}
use binpass.Secret.{Secret}
use binpass.SecretService.Item.{Item, matches_query}
use binpass.SecretService.Index.{Index, Blinding, blind, search_index}
use binpass.SecretService.Index.Laws.{carried, contains-search_index}
use binpass.SecretService.Store.{
  PassStore, IndexJson, Service, confirmed, read_item, confirmed_items, index, search,
}
use binpass.SecretService.Store.Search.{item-id}

-- The name is the one that the store uses for it.
abbrev pub IsClean : Bytes → Type 0
IsClean name = rel name ≡ some name

-- A secret that was written is read under its name, and every other name as before.
pub record IsPassStore {W : Type 0} (p : PassStore W) : Type 0 where
  pub get-set :
      (name other : Bytes) (sec : Secret) (w w' : W)
      → IsClean name
      → IsClean other
      → p.set other sec w ≡ some w'
      → p.get name w' ≡ (if other == name then some sec else p.get name w)
  pub has_entry-get :
      (name : Bytes) (sec : Secret) (w : W) → p.get name w ≡ some sec → p.has_entry name w ≡ true

-- What was encoded is decoded as the same map, with a line feed behind it.
pub record IsIndexJson (json : IndexJson) : Type 0 where
  pub decode-encode :
      (ix : Index) (encoded : Bytes)
      → json.encode ix ≡ some encoded
      → (same : Index) × (json.decode (encoded ++ b'\n' ∷ []) ≡ some same)
        × ((b : Bytes) → lookup b same ≡ lookup b ix)

-- The first item with an identifier.
unfoldable pub item_with : Bytes → List Item → Option Item
item_with id [] = none
item_with id (it ∷ its) = if it.id == id then some it else item_with id its

pub matches_query-All :
    (it : Item) (query : Dict Bytes Bytes)
    → All (λ q. lookup q.0 it.attributes ≡ some q.1) query
    → matches_query it query ≡ true
unfolding matches_query
matches_query-All it [] h = refl
matches_query-All it ((k, v) ∷ query) (here, h) =
    rw here (ground (arith, ==-same v, matches_query-All it query h))

pub All-lookup :
    (m n : Dict Bytes Bytes) (query : Dict Bytes Bytes)
    → ((j : Bytes) → lookup j n ≡ lookup j m)
    → All (λ q. lookup q.0 m ≡ some q.1) query
    → All (λ q. lookup q.0 n ≡ some q.1) query
All-lookup m n [] same h = tt
All-lookup m n ((k, v) ∷ query) same (here, h) = (same k ∙ here, All-lookup m n query same h)

module _ (lib : Blinding) (index_key : Bytes) where
  carried-lookup :
      (ix same : Index) (query : Dict Bytes Bytes) (id : Bytes)
      → ((b : Bytes) → lookup b same ≡ lookup b ix)
      → carried lib index_key same query id ≡ carried lib index_key ix query id
  unfolding carried
  carried-lookup ix same [] id h = refl
  carried-lookup ix same ((k, v) ∷ query) id h =
      rw (h (blind lib index_key k v), carried-lookup ix same query id h) refl

  -- A search sees only what a map means.
  pub search_index-lookup :
      (ix same : Index) (query : Dict Bytes Bytes) (id : Bytes)
      → ((b : Bytes) → lookup b same ≡ lookup b ix)
      → contains (search_index lib index_key same query) id
        ≡ contains (search_index lib index_key ix query) id
  search_index-lookup ix same query id h =
      rw
        (
          contains-search_index lib index_key same query id,
          contains-search_index lib index_key ix query id,
          carried-lookup ix same query id h,
        )
        refl

confirmed-here :
    (query : Dict Bytes Bytes) (id : Bytes) (it : Item) (its : List Item)
    → it.id ≡ id
    → matches_query it query ≡ true
    → item_with id (confirmed query (some it) its) ≡ some it
unfolding item_with
confirmed-here query id it its named m = rw m (rw named (rw (==-same id) refl))

pub confirmed-other :
    (query : Dict Bytes Bytes) (id x : Bytes) (o : Option Item) (its : List Item)
    → ((it : Item) → o ≡ some it → it.id ≡ x)
    → (id == x) ≡ false
    → item_with id (confirmed query o its) ≡ item_with id its
unfolding item_with
confirmed-other query id x none its named ne = refl
confirmed-other query id x (some it) its named ne = let e = named it refl in ground (arith, e)

module _ {W : Type 0} (pass : PassStore W) (json : IndexJson) (lib : Blinding)
    (index_key : Bytes) where
  -- An identifier that is searched, whose item has every pair, is found.
  pub confirmed_items-contains :
      (collection id : Bytes) (query : Dict Bytes Bytes) (ids : List Bytes) (w : W) (it : Item)
      → read_item pass json lib index_key collection id w ≡ some it
      → it.id ≡ id
      → matches_query it query ≡ true
      → contains ids id ≡ true
      → item_with id (confirmed_items pass json lib index_key collection query ids w) ≡ some it
  unfolding confirmed_items item_with
  confirmed_items-contains collection id query [] w it read named m h = cc
  confirmed_items-contains collection id query (x ∷ ids) w it read named m h =
      elim (Bool-cases (id == x)) [
        | inl here ↦
            let e = ==-eq id x here in
            subst
              (λ y.
                item_with id (
                  confirmed query (read_item pass json lib index_key collection y w)
                    (confirmed_items pass json lib index_key collection query ids w))
                ≡ some it)
              e
              (rw read (
                confirmed-here query id it
                  (confirmed_items pass json lib index_key collection query ids w) named m))
        | inr there ↦
            confirmed-other query id x (read_item pass json lib index_key collection x w)
              (confirmed_items pass json lib index_key collection query ids w)
              (λ found e. item-id pass json lib index_key collection x w found e) there
            ∙ confirmed_items-contains collection id query ids w it read named m (ground arith)
      ]

  pub search-index :
      (collection : Bytes) (query : Dict Bytes Bytes) (s s' : Service W) (ix : Index)
      → query ≢ []
      → index pass json lib index_key s ≡ (ok ix, s')
      → search pass json lib index_key collection query s ≡ (
        ok (
            confirmed_items pass json lib index_key collection query
              (search_index lib index_key ix query)
              s'.world),
        s',
      )
  unfolding search
  search-index collection [] s s' ix ne h = absurd (ne refl)
  search-index collection (q ∷ query) s s' ix ne h = rw h refl

  pub index-warm :
      (s : Service W) (ix : Index)
      → s.cached ≡ some ix
      → index pass json lib index_key s ≡ (ok ix, s)
  unfolding index
  index-warm s ix warm = rw warm refl
