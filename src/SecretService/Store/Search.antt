-- ===== src/SecretService/Store/Search.antt =====
-- pkg/secretservice/store.go: what a search returns.
use binpass.Prelude.{
  Bool, true, false, List, [], ◌∷◌, ◌++◌, Option, none, some, Bytes, ◌≡◌, ◌⊎◌, Option-cases, refl,
  sym, ap, arith, bytes_eq, All, Result, ok, err, Bool-cases, inl, inr, subst, some_inj, ◌∙◌, codes,
}
use binpass.Prelude.Dict.{Dict, lookup}
use binpass.Secret.{Secret, Field, password, fields}
use binpass.Sync.Merge.{bytes_ltb}
use binpass.Paths.{clean}
use binpass.Text.{has_prefix}
use binpass.SecretService.Item.{Item, matches_query, take_fields, take_field, item_from_secret}
use binpass.SecretService.Index.{Index, Blinding, search_index}
use binpass.SecretService.Store.{
  PassStore, IndexJson, Service, ServiceError, Run, bound, as_item, kept_item, confirmed,
  insert_item, read_item, item_path, base, root, slashed, entries_or_none, items_from, items,
  confirmed_items, index, read_index, keep_index, search,
}

-- A chain that ends well began well.
pub bound-eq-ok :
    {W A B : Type 0} {b : B} {s' : Service W} (r : Result ServiceError A × Service W)
    (next : A → Run W B)
    → bound r next ≡ (ok b, s')
    → (a : A) × (mid : Service W) × (r ≡ (ok a, mid)) × (next a mid ≡ (ok b, s'))
bound-eq-ok (err e, s) next ends = cc
bound-eq-ok (ok a, s) next ends = (a, s, refl, ends)

-- Taking fields changes no identifier.
take_field-id : (it : Item) (f : Field) → (take_field it f).id ≡ it.id
unfolding take_field
take_field-id it f = ground arith

take_fields-id : (it : Item) (fs : List Field) → (take_fields it fs).id ≡ it.id
unfolding take_fields
take_fields-id it [] = refl
take_fields-id it (f ∷ fs) = take_fields-id (take_field it f) fs ∙ take_field-id it f

pub item_from_secret-id : (id : Bytes) (sec : Secret) → (item_from_secret id sec).id ≡ id
unfolding item_from_secret
item_from_secret-id id sec =
    take_fields-id
      (record {
        id = id;
        label = [];
        attributes = [];
        secret = password sec;
        created = none;
        modified = none;
      })
      (fields sec)

All-insert_item :
    (P : Item → Type 0) (it : Item) (items : List Item)
    → P it
    → All P items
    → All P (insert_item it items)
unfolding insert_item
All-insert_item P it [] here rest = (here, tt)
All-insert_item P it (other ∷ items) here (there, rest) =
    elim (Bool-cases (bytes_ltb other.id it.id)) [
      | inl later ↦ rw later (there, All-insert_item P it items here rest)
      | inr first ↦ rw first (here, (there, rest))
    ]

module _ {W : Type 0} (pass : PassStore W) where
  as_item-id : (id : Bytes) (o : Option Secret) (it : Item) → as_item id o ≡ some it → it.id ≡ id
  as_item-id id none it h = cc
  as_item-id id (some sec) it h = ap (λ i. i.id) (sym (some_inj h)) ∙ item_from_secret-id id sec

  pub item-id :
      (json : IndexJson) (lib : Blinding) (index_key collection id : Bytes) (w : W) (it : Item)
      → read_item pass json lib index_key collection id w ≡ some it
      → it.id ≡ id
  unfolding read_item
  item-id json lib index_key collection id w it h =
      as_item-id id (pass.get (item_path collection id) w) it h

module _ {W : Type 0} (pass : PassStore W) (json : IndexJson) (lib : Blinding)
    (index_key : Bytes) where
  -- The item has the value of a pair, or the value is empty and the item lacks the attribute.
  abbrev pub Carries : Item → Bytes × Bytes → Type 0
  Carries it q =
      (lookup q.0 it.attributes ≡ some q.1) ⊎ ((lookup q.0 it.attributes ≡ none) × (q.1 ≡ []))

  matches_query-Carries :
      (it : Item) (query : Dict Bytes Bytes)
      → matches_query it query ≡ true
      → All (Carries it) query
  unfolding matches_query
  matches_query-Carries it [] m = tt
  matches_query-Carries it ((k, v) ∷ query) m = elim (Option-cases (lookup k it.attributes)) [
    | inl lacking ↦ (
      inr (lacking, ground (arith, rw lacking at m)),
      matches_query-Carries it query (ground (arith, m)),
    )
    | inr (w, there) ↦ (
      inl (there ∙ ap some (ground (arith, rw there at m))),
      matches_query-Carries it query (ground (arith, m)),
    )
  ]

  -- The item is the one that the store has under its identifier, and it carries every pair of the
  -- query.
  pub record Answers (w : W) (collection : Bytes) (query : Dict Bytes Bytes) (it : Item)
      : Type 0 where
    pub matching : All (Carries it) query
    pub there : read_item pass json lib index_key collection it.id w ≡ some it

  answers :
      (w : W) (collection id : Bytes) (query : Dict Bytes Bytes) (it : Item)
      → read_item pass json lib index_key collection id w ≡ some it
      → matches_query it query ≡ true
      → Answers w collection query it
  answers w collection id query it h m = record {
    matching = matches_query-Carries it query m;
    there =
        ap (λ i. read_item pass json lib index_key collection i w)
          (item-id pass json lib index_key collection id w it h)
        ∙ h;
  }

  confirmed-Answers :
      (w : W) (collection id : Bytes) (query : Dict Bytes Bytes) (o : Option Item) (its : List Item)
      → read_item pass json lib index_key collection id w ≡ o
      → All (Answers w collection query) its
      → All (Answers w collection query) (confirmed query o its)
  confirmed-Answers w collection id query none its h rest = rest
  confirmed-Answers w collection id query (some it) its h rest =
      elim (Bool-cases (matches_query it query)) [
        | inl m ↦ rw m (answers w collection id query it h m, rest)
        | inr m ↦ rw m rest
      ]

  confirmed_items-Answers :
      (w : W) (collection : Bytes) (query : Dict Bytes Bytes) (ids : List Bytes)
      → All
          (Answers w collection query)
          (confirmed_items pass json lib index_key collection query ids w)
  unfolding confirmed_items
  confirmed_items-Answers w collection query [] = tt
  confirmed_items-Answers w collection query (id ∷ ids) =
      confirmed-Answers w collection id query (read_item pass json lib index_key collection id w)
        (confirmed_items pass json lib index_key collection query ids w) refl
        (confirmed_items-Answers w collection query ids)

  kept_item-Answers :
      (w : W) (collection id : Bytes) (hidden : Bool) (o : Option Item) (its : List Item)
      → read_item pass json lib index_key collection id w ≡ o
      → All (Answers w collection []) its
      → All (Answers w collection []) (kept_item hidden o its)
  unfolding matches_query
  kept_item-Answers w collection id hidden none its h rest = rest
  kept_item-Answers w collection id true (some it) its h rest = rest
  kept_item-Answers w collection id false (some it) its h rest =
      All-insert_item (Answers w collection []) it its (answers w collection id [] it h refl) rest

  items_from-Answers :
      (w : W) (collection : Bytes) (entries : List Bytes)
      → All (Answers w collection []) (items_from pass json lib index_key collection entries w)
  unfolding items_from
  items_from-Answers w collection [] = tt
  items_from-Answers w collection (e ∷ entries) =
      kept_item-Answers w collection (base e) (has_prefix (base e) (codes "."))
        (read_item pass json lib index_key collection (base e) w)
        (items_from pass json lib index_key collection entries w) refl
        (items_from-Answers w collection entries)

  -- Reading the index changes no file.
  pub index-world :
      (s s' : Service W) (ix : Index)
      → index pass json lib index_key s ≡ (ok ix, s')
      → s'.world ≡ s.world
  unfolding index read_index keep_index
  index-world s s' ix h = ground arith

  -- A search leaves the files as they are, and each item that it returns is the one that the store
  -- has under its identifier and has every pair of the query, whatever the index says; a pair with an
  -- empty value is also had by an item without the attribute.
  pub search-Answers :
      (s s' : Service W) (collection : Bytes) (query : Dict Bytes Bytes) (found : List Item)
      → search pass json lib index_key collection query s ≡ (ok found, s')
      → (s'.world ≡ s.world) × All (Answers s.world collection query) found
  unfolding search items
  search-Answers s s' collection [] found h =
      let same : items pass json lib index_key collection s.world ≡ found = cc in
      (
        cc,
        subst (All (Answers s.world collection [])) same (
            items_from-Answers s.world collection
              (entries_or_none (pass.listing (clean (root ++ slashed collection)) s.world))),
      )
  search-Answers s s' collection (q ∷ query) found h =
      let (ix, mid, got, rest) =
        bound-eq-ok (index pass json lib index_key s)
          (λ ix mid. (
            ok (
                confirmed_items pass json lib index_key collection (q ∷ query)
                  (search_index lib index_key ix (q ∷ query)) mid.world),
            mid,
          ))
          h in
      let unmoved = index-world s mid ix got in
      let stayed : mid ≡ s' = ap (λ r. r.1) rest in
      let same : confirmed_items pass json lib index_key collection (q ∷ query)
            (search_index lib index_key ix (q ∷ query)) mid.world
          ≡ found =
        cc in
      (
        sym (ap (λ t. t.world) stayed) ∙ unmoved,
        subst (λ w. All (Answers w collection (q ∷ query)) found) unmoved
            (subst (All (Answers mid.world collection (q ∷ query))) same (
              confirmed_items-Answers mid.world collection (q ∷ query)
                (search_index lib index_key ix (q ∷ query)))),
      )
