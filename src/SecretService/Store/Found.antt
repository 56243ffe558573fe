-- ===== src/SecretService/Store/Found.antt =====
-- pkg/secretservice/store.go: an item that was created is found again.
use binpass.Prelude.{
  true, List, [], ◌∷◌, ◌++◌, Option, none, some, Bytes, ◌≡◌, ◌≢◌, ◌⊎◌, inl, inr, refl, sym, ap, ◌∙◌,
  subst, arith, bytes_eq, contains, All, ok, ==-same, ==-other,
}
use binpass.Prelude.Dict.{Dict, lookup}
use binpass.Paths.{rel, escapes}
use binpass.Text.{trim_prefix, trim_space}
use binpass.Secret.{Secret, parse}
use binpass.Secret.Laws.{IsLine}
use binpass.SecretService.Item.{Item, Moment, item_from_secret, to_secret, item_lines, sorted_keys}
use binpass.SecretService.Item.Attributes.{AllWritable, lookup-item_from_secret}
use binpass.SecretService.Index.{Index, Blinding, add, remove, search_index}
use binpass.SecretService.Index.Changes.{search_index-add}
use binpass.SecretService.Store.{
  PassStore, IndexJson, Service, as_item, read_item, item_path, index_path, confirmed_items, index,
  read_index, keep_index, search, create_item,
}
use binpass.SecretService.Store.Search.{item_from_secret-id}
use binpass.SecretService.Store.Finding.{
  IsClean, IsPassStore, IsIndexJson, item_with, matches_query-All, All-lookup, search_index-lookup,
  confirmed_items-contains, search-index, index-warm,
}
use binpass.SecretService.Store.Creation.{Stored, create_item-Stored}

module _ {W : Type 0} (pass : PassStore W) (json : IndexJson) (lib : Blinding)
    (index_key : Bytes) where
  -- The index is read from its entry by a process that has not read it yet.
  index-cold :
      (w : W) (sec : Secret) (ix : Index)
      → pass.has_entry index_path w ≡ true
      → pass.get index_path w ≡ some sec
      → json.decode sec.raw ≡ some ix
      → index pass json lib index_key (record { world = w; cached = none })
        ≡ (ok ix, record { world = w; cached = some ix })
  unfolding index read_index keep_index
  index-cold w sec ix there read decodes = ground arith

  index_path-IsClean : IsClean index_path
  unfolding index_path rel trim_prefix trim_space bytes_eq escapes
  index_path-IsClean = refl

  read_item-Stored :
      (collection : Bytes) (made : Item) (before : W) (after : Service W)
      → IsPassStore pass
      → IsClean (item_path collection made.id)
      → item_path collection made.id ≢ index_path
      → Stored pass json lib index_key collection made before after
      → read_item pass json lib index_key collection made.id after.world
        ≡ some (item_from_secret made.id (to_secret made))
  unfolding read_item
  read_item-Stored collection made before after laws clean apart st =
      let path = item_path collection made.id in
      let apart_eq = ==-other index_path path (λ e. apart (sym e)) in
      let same = ==-same path in
      let after_index : pass.get path after.world ≡ pass.get path st.entry =
        laws.get-set path index_path (parse (st.encoded ++ b'\n' ∷ [])) st.entry after.world clean
          index_path-IsClean st.indexed
        ∙ rw apart_eq refl in
      let after_entry : pass.get path st.entry ≡ some (to_secret made) =
        laws.get-set path path (to_secret made) before st.entry clean clean st.written
        ∙ rw same refl in
      ap (as_item made.id) (after_index ∙ after_entry)

  -- The process itself, or one that has not read the index yet.
  abbrev pub SameOrFresh : Service W → Service W → Type 0
  SameOrFresh s t = (t ≡ s) ⊎ (t ≡ record { world = s.world; cached = none })

  index-Stored :
      (collection : Bytes) (made : Item) (before : W) (after t : Service W)
      → IsPassStore pass
      → IsIndexJson json
      → Stored pass json lib index_key collection made before after
      → SameOrFresh after t
      → (same ix : Index) × (mid : Service W) × (index pass json lib index_key t ≡ (ok same, mid))
        × (mid.world ≡ after.world)
        × ((b : Bytes) → lookup b same ≡ lookup b (add lib index_key made ix))
  index-Stored collection made before after t laws codec st (inl here) =
      let new = add lib index_key made (remove made.id st.ix) in
      (
        new,
        remove made.id st.ix,
        after,
        ap (index pass json lib index_key) here
            ∙ index-warm pass json lib index_key after new st.in_memory,
        refl,
        λ b. refl,
      )
  index-Stored collection made before after t laws codec st (inr fresh) =
      let sec = parse (st.encoded ++ b'\n' ∷ []) in
      let same_path = ==-same index_path in
      let read : pass.get index_path after.world ≡ some sec =
        laws.get-set index_path index_path sec st.entry after.world index_path-IsClean
          index_path-IsClean st.indexed
        ∙ rw same_path refl in
      let (same, decodes, means) =
        codec.decode-encode (add lib index_key made (remove made.id st.ix)) st.encoded st.encodes in
      (
        same,
        remove made.id st.ix,
        record { world = after.world; cached = some same },
        ap (index pass json lib index_key) fresh
            ∙ index-cold after.world sec same (laws.has_entry-get index_path sec after.world read)
                read decodes,
        refl,
        means,
      )

  -- An item that was created, in place of one with the same attributes if there is one, is found
  -- afterwards by every query of one or more of its attributes, by the process that created it and
  -- by one that reads the index from its entry alike, and has every attribute that it was created
  -- with. The password store reads what was written; the item's path is clean and not that of the
  -- index; its secret is not empty, and its lines, keys and values can be written.
  pub search-create_item :
      (collection : Bytes) (it made : Item) (random : Option Bytes) (now : Moment)
      (query : Dict Bytes Bytes) (s s' t : Service W)
      → IsPassStore pass
      → IsIndexJson json
      → create_item pass json lib index_key collection it true random now s ≡ (ok made, s')
      → SameOrFresh s' t
      → IsClean (item_path collection made.id)
      → item_path collection made.id ≢ index_path
      → made.secret ≢ []
      → All IsLine (made.secret ∷ item_lines made)
      → AllWritable made.attributes (sorted_keys made.attributes)
      → query ≢ []
      → All (λ q. lookup q.0 it.attributes ≡ some q.1) query
      → (found : List Item) × (after : Service W) × (again : Item) × (search pass json lib index_key
            collection query t
          ≡ (ok found, after))
        × (item_with made.id found ≡ some again)
        × ((j : Bytes) → lookup j again.attributes ≡ lookup j it.attributes)
  search-create_item collection it made random now query s s' t laws codec h reader clean apart full
        lines writable ne asked =
      let (before, kept, st) =
        create_item-Stored pass json lib index_key collection it made random now s s' h in
      let (same, ix, mid, got, unmoved, means) =
        index-Stored collection made before s' t laws codec st reader in
      let again = item_from_secret made.id (to_secret made) in
      let here =
        subst (λ w. read_item pass json lib index_key collection made.id w ≡ some again)
          (sym unmoved) (read_item-Stored collection made before s' laws clean apart st) in
      let attrs : (j : Bytes) → lookup j again.attributes ≡ lookup j it.attributes =
        λ j. lookup-item_from_secret made made.id j full lines writable ∙ ap (lookup j) kept in
      let asked_made : All (λ q. lookup q.0 made.attributes ≡ some q.1) query =
        subst (λ m. All (λ q. lookup q.0 m ≡ some q.1) query) (sym kept) asked in
      let listed : contains (search_index lib index_key same query) made.id ≡ true =
        search_index-lookup lib index_key (add lib index_key made ix) same query made.id means
        ∙ search_index-add lib index_key made ix query ne asked_made in
      (
        confirmed_items pass json lib index_key collection query
            (search_index lib index_key same query) mid.world,
        mid,
        again,
        search-index pass json lib index_key collection query t mid same ne got,
        confirmed_items-contains pass json lib index_key collection made.id query
            (search_index lib index_key same query) mid.world again here
            (item_from_secret-id made.id (to_secret made))
            (matches_query-All again query
              (All-lookup it.attributes again.attributes query attrs asked))
            listed,
        attrs,
      )
