-- ===== src/SecretService/Store.antt =====
-- pkg/secretservice/store.go: the items in the password store, and the index beside them.
pub mod Search
pub mod Finding
pub mod Creation
pub mod Found
pub mod Deletion
pub mod Files
pub mod Parts
unfoldable pub use Parts.*
use binpass.Prelude.{
  ℕ, suc, zero, ◌+◌, ◌/◌, ◌%◌, Bool, true, false, not, ◌&&◌, ◌||◌, List, [], ◌∷◌, ◌++◌, Option,
  none, some, Bytes, codes, ltb, nat_eqb, ◌==◌, bytes_eq, if◌then◌else◌, length, drop, contains,
  Result, ok, err,
}
use binpass.Prelude.Dict.{Dict}
use binpass.Text.{has_prefix, trim_prefix, cut, last_index}
use binpass.Paths.{clean}
use binpass.Secret.{Secret, parse}
use binpass.Sync.Merge.{bytes_ltb}
use binpass.SecretService.Item.{
  Item, Moment, item_from_secret, to_secret, matches_query, sort_texts,
}
use binpass.SecretService.Index.{Index, Blinding, add, remove, search_index}

module _ {W : Type 0} (pass : PassStore W) (json : IndexJson) (lib : Blinding)
    (index_key : Bytes) where
  -- `Item`
  unfoldable pub read_item : Bytes → Bytes → W → Option Item
  read_item collection id w = as_item id (pass.get (item_path collection id) w)

  unfoldable pub items_from : Bytes → List Bytes → W → List Item
  unfolding read_item insert_item base
  items_from collection [] w = []
  items_from collection (e ∷ entries) w =
      kept_item (has_prefix (base e) (codes ".")) (read_item collection (base e) w)
        (items_from collection entries w)

  -- `Items`
  unfoldable pub items : Bytes → W → List Item
  unfolding items_from
  items collection w =
      items_from collection (entries_or_none (pass.listing (clean (root ++ slashed collection)) w))
        w

  -- `Collections`
  unfoldable pub collections : W → List Bytes
  unfolding collection_names sort_texts
  collections w = sort_texts (collection_names [] (entries_or_none (pass.listing root w)))

  unfoldable pub confirmed_items : Bytes → Dict Bytes Bytes → List Bytes → W → List Item
  unfolding read_item
  confirmed_items collection query [] w = []
  confirmed_items collection query (id ∷ ids) w =
      confirmed query (read_item collection id w) (confirmed_items collection query ids w)

  pub keep_index : Index → Run W (Unit {0})
  keep_index ix s = (ok tt, record s { cached = some ix })

  pub write_entry : Bytes → Secret → Run W (Unit {0})
  write_entry name sec s = elim (pass.set name sec s.world) [
    | none ↦ (err not_stored, s)
    | some w ↦ (ok tt, record s { world = w })
  ]

  -- The index of the entry for it.
  pub read_index : Run W Index
  unfolding keep_index
  read_index s =
      (do
        sec ← or_fail locked (pass.get index_path s.world)
        ix ← or_fail unreadable (json.decode sec.raw)
        _ ← keep_index ix
        return ix)
        s

  -- `index`
  unfoldable pub index : Run W Index
  unfolding read_index keep_index
  index s = elim s.cached [
    | some ix ↦ (ok ix, s)
    | none ↦ elim (pass.has_entry index_path s.world) [
      | true ↦ read_index s
      | false ↦ (do _ ← keep_index []; return []) s
    ]
  ]

  -- `saveIndex`
  unfoldable pub save_index : Index → Run W (Unit {0})
  unfolding keep_index write_entry
  save_index ix = do
    encoded ← or_fail not_encoded (json.encode ix)
    _ ← keep_index ix
    write_entry index_path (parse (encoded ++ b'\n' ∷ []))

  -- An index that was changed in place, saved.
  unfoldable pub save_changed : Index → Run W (Unit {0})
  unfolding keep_index save_index
  save_changed ix = do _ ← keep_index ix; save_index ix

  -- `Search`
  unfoldable pub search : Bytes → Dict Bytes Bytes → Run W (List Item)
  unfolding items confirmed_items index search_index
  search collection [] s = (ok (items collection s.world), s)
  search collection (q ∷ query) s =
      (do
        ix ← index
        λ s'. (
          ok (
              confirmed_items collection (q ∷ query) (search_index lib index_key ix (q ∷ query))
                s'.world),
          s',
        ))
        s

  -- `findByAttributes`
  unfoldable pub find_by_attributes : Bytes → Dict Bytes Bytes → Run W (Option Item)
  unfolding search with_length
  find_by_attributes collection [] = return none
  find_by_attributes collection (a ∷ attrs) = do
    found ← search collection (a ∷ attrs)
    return (with_length (length (a ∷ attrs)) found)

  -- An error of the search counts as nothing found.
  abbrev pub found_or_none :
      Result ServiceError (Option Item) × Service W → Result ServiceError (Option Item) × Service W
  found_or_none (err _, s) = (ok none, s)
  found_or_none (ok found, s) = (ok found, s)

  -- The identifier of an read_item, a new one if it has none.
  pub identified : Item → Option Bytes → Run W Item
  unfolding new_id
  identified it random =
      if it.id == []
      then (do bytes ← or_fail no_random random; return (record it { id = new_id bytes }))
      else return it

  abbrev pub created_at : Moment → Moment → Moment
  created_at none now = now
  created_at (some t) now = some t

  -- An item written, and added to the index.
  unfoldable pub store_item : Bytes → Moment → Item → Run W Item
  unfolding write_entry save_changed index item_path
  store_item collection now it = do
    let made = record it { created = created_at it.created now; modified = now }
    _ ← write_entry (item_path collection made.id) (to_secret made)
    ix ← index
    _ ← save_changed (add lib index_key made (remove made.id ix))
    return made

  -- What is done where an item with the same attributes was found, or none.
  unfoldable pub create_over :
      Bytes → Item → Bool → Option Bytes → Moment → Option Item → Run W Item
  unfolding store_item identified
  create_over collection it replace random now none = do
    made ← identified it random
    store_item collection now made
  create_over collection it false random now (some old) = return old
  create_over collection it true random now (some old) = do
    made ← identified (record it { id = old.id; created = old.created }) random
    store_item collection now made

  -- `CreateItem`, of the bytes that are drawn and the present moment.
  unfoldable pub create_item : Bytes → Item → Bool → Option Bytes → Moment → Run W Item
  unfolding create_over find_by_attributes
  create_item collection it replace random now = do
    found ← λ s. found_or_none (find_by_attributes collection it.attributes s)
    create_over collection it replace random now found

  pub delete_entry : Bytes → Run W (Unit {0})
  delete_entry name s = elim (pass.delete name s.world) [
    | none ↦ (err not_found, s)
    | some w ↦ (ok tt, record s { world = w })
  ]

  -- `DeleteItem`
  unfoldable pub delete_item : Bytes → Bytes → Run W (Unit {0})
  unfolding delete_entry index save_changed
  delete_item collection id = do
    _ ← delete_entry (item_path collection id)
    ix ← index
    save_changed (remove id ix)

  add_items : List Item → Index → Index
  add_items [] ix = ix
  add_items (it ∷ its) ix = add_items its (add lib index_key it ix)

  index_of : List Bytes → W → Index → Index
  index_of [] w ix = ix
  index_of (c ∷ cs) w ix = index_of cs w (add_items (items c w) ix)

  count_of : List Bytes → W → ℕ
  count_of [] w = 0
  count_of (c ∷ cs) w = length (items c w) + count_of cs w

  -- `Reindex`
  unfoldable pub reindex : Run W ℕ
  unfolding index_of count_of add_items save_changed collections
  reindex s =
      (do
        _ ← save_changed (index_of (collections s.world) s.world [])
        return (count_of (collections s.world) s.world))
        s
